-- ===== src/Errors.antt =====
-- The errors of internal/request/error.go and internal/modules/errors/*.go, and the replies of
-- internal/webserver/errors/panic.go.
use capsule_proxy.Prelude.{ℕ, String}
use capsule_proxy.Go.Text.{◌<>◌}

pub record GroupKind : Type 0 where
  pub group : String
  pub kind : String

pub data Reason : Type 0 where
  bad_request not_found forbidden internal_error : Reason

-- `metav1.Status`, as the program fills it in; its kind and status are always Status and Failure.
pub record Status : Type 0 where
  pub reason : Reason
  pub message : String
  pub code : ℕ
  pub name : String
  pub details : GroupKind

-- `*ErrUnauthorized`, an error of a module, any other error, and a panic of the handler.
pub data Error : Type 0 where
  unauthorized : String → Error
  module_error : Status → Error
  fault : String → Error
  panic : String → Error

unfoldable pub error_message : Error → String
error_message (unauthorized m) = m
error_message (module_error s) = s.message
error_message (fault m) = m
error_message (panic m) = m

unfoldable pub new_bad_request : Error → GroupKind → Error
unfolding error_message
new_bad_request e gk = module_error (record {
  reason = bad_request;
  message = error_message e;
  code = 400;
  name = "";
  details = gk;
})

unfoldable pub new_not_allowed : GroupKind → Error
new_not_allowed gk =
    module_error (record {
      reason = bad_request;
      message = "not allowed";
      code = 400;
      name = "";
      details = gk;
    })

-- The message quotes the name as `%q` does for a name of printable characters.
unfoldable pub new_not_found_error : String → GroupKind → Error
new_not_found_error name gk = module_error (record {
  reason = not_found;
  message = gk.kind <> "." <> gk.group <> " \"" <> name <> "\" not found";
  code = 404;
  name = name;
  details = gk;
})

-- What the proxy answers by itself: a status code and the `Status` of the body.
pub record Reply : Type 0 where
  pub status_code : ℕ
  pub reason : Reason
  pub message : String

unfoldable pub handle_unauthorized : Error → String → Reply
unfolding error_message
handle_unauthorized e message = record {
  status_code = 403;
  reason = forbidden;
  message = message <> ": " <> error_message e;
}

unfoldable pub handle_error : Error → String → Reply
unfolding error_message
handle_error e message = record {
  status_code = 500;
  reason = internal_error;
  message = message <> ": " <> error_message e;
}

-- `handleResolveUserAndGroupsError`: `errors.As` to `*ErrUnauthorized`
unfoldable pub handle_resolve_error : Error → Reply
unfolding handle_unauthorized handle_error
handle_resolve_error (unauthorized m) =
    handle_unauthorized (unauthorized m) "cannot retrieve user and group from the request"
handle_resolve_error e = handle_error e "cannot retrieve user and group from the request"
