-- ===== src/Examples/Requests.antt =====
-- Requests, impersonation, tokens and the cache of the reflector.
use capsule_proxy.Prelude.{
  ℕ, String, ◌≡◌, refl, Bool, true, false, Option, none, some, List, [], ◌∷◌, ◌++◌, Result, ok, err,
  ◌≤◌, arith, ◌≢◌, All, keep, not, ◌&&◌, ◌==◌, eqb, if◌then◌else◌, suc, zero,
}
use capsule_proxy.Go.Text.{has_prefix}
use capsule_proxy.Go.Header.{Header, values, canonical}
use capsule_proxy.Request.Http.{
  HttpRequest, anonymous, get_user_and_groups, resolve_user_and_groups, authenticate,
}
use capsule_proxy.Request.Impersonation.{
  get_impersonating_groups, sanitize_impersonation_headers, impersonate_user_header,
  impersonate_group_header,
}
use capsule_proxy.Request.Reviews.{Approved, get_user_and_groups-Approved, resolve_idempotent}
use capsule_proxy.Request.Providers.{Decided, authenticate-Decided}
use capsule_proxy.Go.Text.{◌<>◌}
use capsule_proxy.Request.Xfcc.{unquote_xfcc_value}
use capsule_proxy.Request.Quoting.{the_quote, escape, unquote-escape}
use capsule_proxy.Web.Forward.{impersonated}
use capsule_proxy.Web.Headers.{impersonated_exactly, impersonated_keeps}
use capsule_proxy.Web.Sanitized.{sanitize_removes}
use capsule_proxy.RoleBindings.Cache.{Reflector, cached_result, store_result, invalidate_results}
use capsule_proxy.RoleBindings.Runs.{
  State, Request, initial, Reachable, start, change, notify, begin, finish, cached_result-IsFresh,
}
use capsule_proxy.Examples.Sample.{sample_world, sample_config, sample_request, alice}

get_user_and_groups-Approved_example :
    Approved sample_world sample_config sample_request
      (get_user_and_groups sample_world sample_config sample_request)
unfolding get_user_and_groups capsule_proxy.Go.Text.trim_prefix capsule_proxy.Go.Header.get values
    capsule_proxy.Prelude.lookup canonical get_impersonating_groups capsule_proxy.Go.Text.join
    capsule_proxy.Request.Impersonation.get_impersonating_user
get_user_and_groups-Approved_example =
    get_user_and_groups-Approved sample_world sample_config sample_request refl refl refl

authenticate-Decided_example :
    (d : Decided sample_world sample_config sample_request sample_config.auth_types alice)
    × (d.decides ≢ anonymous)
unfolding authenticate capsule_proxy.Go.Text.trim_prefix capsule_proxy.Go.Header.get values
    capsule_proxy.Prelude.lookup canonical
authenticate-Decided_example =
    authenticate-Decided sample_world sample_config sample_request alice refl

abbrev quiet : Header
quiet = ("Connection", "Impersonate-User" ∷ []) ∷ []

abbrev has_token : List String → String → Bool
has_token vs token = false

impersonated_exactly_example :
    (values (impersonated has_token "t" alice quiet) impersonate_user_header ≡ "alice" ∷ [])
    × (values (impersonated has_token "t" alice quiet) impersonate_group_header ≡ "devs" ∷ [])
unfolding values capsule_proxy.Prelude.lookup canonical
impersonated_exactly_example = impersonated_exactly has_token "t" alice quiet refl refl

impersonated_keeps_example :
    (values (impersonated has_token "t" alice sample_request.header) impersonate_user_header
      ≡ values sample_request.header impersonate_user_header ++ "alice" ∷ [])
    × (values (impersonated has_token "t" alice sample_request.header) impersonate_group_header
        ≡ values sample_request.header impersonate_group_header ++ "devs" ∷ [])
unfolding values capsule_proxy.Prelude.lookup canonical
impersonated_keeps_example = impersonated_keeps has_token "t" alice sample_request.header refl

abbrev a_key : String
a_key = "alice\u{1}devs"

-- The first version of the caches has no tenants, the next ones have one.
abbrev tenants_at : ℕ → String → List String
tenants_at zero key = []
tenants_at (suc v) key = "oil" ∷ []

abbrev after_event : Reflector
after_event = invalidate_results initial.reflector

abbrev late_request : Request
late_request = record { key = a_key; generation = after_event.generation; begun = 1 }

abbrev quiet_state : State
quiet_state = record { version = 1; pending = 0; reflector = after_event; requests = [] }

stored_run : Reachable tenants_at 1 (record {
  version = 1;
  pending = 0;
  reflector = store_result after_event a_key ("oil" ∷ []) after_event.generation;
  requests = [];
})
unfolding cached_result capsule_proxy.Prelude.lookup invalidate_results
stored_run =
    finish [] [] late_request ("oil" ∷ []) refl (λ _. refl)
      (begin {n = 1} {s = quiet_state} a_key refl (notify 0 refl (change start)))

cached_result-IsFresh_example : ("oil" ∷ []) ≡ tenants_at 1 a_key
unfolding cached_result capsule_proxy.Prelude.lookup store_result invalidate_results
    capsule_proxy.Prelude.insert
cached_result-IsFresh_example =
    cached_result-IsFresh tenants_at a_key ("oil" ∷ []) (omega arith) stored_run refl refl

abbrev returned_request : HttpRequest
returned_request = record sample_request {
  header = ("Impersonate-User", "bob" ∷ []) ∷ ("Impersonate-Group", "qa" ∷ "ops" ∷ []) ∷ [];
  context = some (record { username = "bob"; groups = "qa" ∷ [] });
}

resolve_idempotent_example :
    resolve_user_and_groups sample_world sample_config returned_request
    ≡ ok (returned_request, record { username = "bob"; groups = "qa" ∷ [] })
unfolding resolve_user_and_groups get_user_and_groups capsule_proxy.Go.Text.trim_prefix
    capsule_proxy.Go.Header.get values capsule_proxy.Prelude.lookup canonical
    get_impersonating_groups capsule_proxy.Go.Text.join
    capsule_proxy.Request.Impersonation.get_impersonating_user
resolve_idempotent_example =
    resolve_idempotent sample_world sample_config sample_request returned_request
      (record { username = "bob"; groups = "qa" ∷ [] }) refl sample_world sample_config

sanitize_removes_example :
    (values (sanitize_impersonation_headers sample_request.header) impersonate_user_header ≡ [])
    × (values (sanitize_impersonation_headers sample_request.header) impersonate_group_header ≡ [])
    × (values (sanitize_impersonation_headers sample_request.header) "Impersonate-Extra-Scopes"
        ≡ [])
unfolding has_prefix canonical
sanitize_removes_example =
    sanitize_removes sample_request.header "Impersonate-Extra-Scopes" refl refl

unquote-escape_example :
    unquote_xfcc_value (String.◌∷◌ the_quote (escape "a\"b" <> (String.◌∷◌ the_quote "")))
    ≡ ok "a\"b"
unquote-escape_example = unquote-escape "a\"b"
