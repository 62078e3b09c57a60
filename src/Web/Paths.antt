-- ===== src/Web/Paths.antt =====
-- The paths of internal/utils/gvk.go are read back by internal/modules/utils/gvk.go.
use Prim.Native.String.{[], ◌∷◌}
use text.Mathlib.TextLemmas.{nil-append, cons-append, append_assoc}
use capsule_proxy.Prelude.{
  ℕ, String, ◌≡◌, refl, sym, ◌∙◌, ap, Bool, false, some, List, ◌==◌, ◌++◌, eqb, eq_iff, arith,
  Bool-cases, inl, inr,
}
use capsule_proxy.Go.Text.{◌<>◌, is_blank, join, has_char, split, trim, trim_left, trim_right}
use capsule_proxy.Go.Splitting.{Lacks, split_of_Lacks, split-append, one-append}
use capsule_proxy.Cluster.Scope.{GroupVersionKind}
use capsule_proxy.Modules.Gvk.{get_gvk_from_url, gvk_of_parts}
use capsule_proxy.Web.Discovery.{ProxyGroupVersionKind, path, path_parts}

abbrev slash : ℕ → Bool
slash c = eqb c b'/'

not_blank-append : (p s : String) → is_blank s ≡ false → is_blank (p <> s) ≡ false
not_blank-append [] s h = rw nil-append h
not_blank-append (c ∷ p) s h = rw cons-append refl

trim_right_of_Lacks : (s : String) → Lacks b'/' s → trim_right slash s ≡ s
unfolding trim_right has_char
trim_right_of_Lacks [] h = refl
trim_right_of_Lacks (c ∷ s) h = ground (arith, trim_right_of_Lacks s, h)

trim_right-append :
    (p s : String)
    → is_blank s ≡ false
    → trim_right slash s ≡ s
    → trim_right slash (p <> s) ≡ p <> s
unfolding trim_right
trim_right-append [] s h kept = rw nil-append kept
trim_right-append (c ∷ p) s h kept =
    rw cons-append (ground (arith, trim_right-append p s h kept, not_blank-append p s h))

trim_left-append :
    (p s : String) → is_blank p ≡ false → Lacks b'/' p → trim_left slash ("/" <> p <> s) ≡ p <> s
unfolding trim_left has_char
trim_left-append [] s h lacks = absurd (cc h)
trim_left-append (c ∷ p) s h lacks =
    ap (trim_left slash) (one-append "/" ((c ∷ p) <> s)) ∙ rw cons-append (ground (arith, lacks))

-- The last part is not blank, and no part has the separator.
abbrev Parts : String → List String → Type 0
Parts p List.[] = (is_blank p ≡ false) × Lacks b'/' p
Parts p (List.◌∷◌ q qs) = Lacks b'/' p × Parts q qs

not_blank-join :
    (p : String) (ps : List String) → Parts p ps → is_blank (join "/" (List.◌∷◌ p ps)) ≡ false
unfolding join
not_blank-join p List.[] (h, lacks) = h
not_blank-join p (List.◌∷◌ q qs) (lacks, rest) =
    not_blank-append p ("/" <> join "/" (List.◌∷◌ q qs))
      (not_blank-append "/" (join "/" (List.◌∷◌ q qs)) (not_blank-join q qs rest))

trim_right-join :
    (p : String) (ps : List String)
    → Parts p ps
    → trim_right slash (join "/" (List.◌∷◌ p ps)) ≡ join "/" (List.◌∷◌ p ps)
unfolding join
trim_right-join p List.[] (h, lacks) = trim_right_of_Lacks p lacks
trim_right-join p (List.◌∷◌ q qs) (lacks, rest) =
    let tail = join "/" (List.◌∷◌ q qs) in
    let full = not_blank-join q qs rest in
    trim_right-append p ("/" <> tail) (not_blank-append "/" tail full)
      (trim_right-append "/" tail full (trim_right-join q qs rest))

split-join :
    (p : String) (ps : List String)
    → Parts p ps
    → split b'/' (join "/" (List.◌∷◌ p ps)) ≡ List.◌∷◌ p ps
unfolding join
split-join p List.[] (h, lacks) = split_of_Lacks b'/' p lacks
split-join p (List.◌∷◌ q qs) (lacks, rest) =
    ap (λ s. split b'/' (p <> s)) (one-append "/" (join "/" (List.◌∷◌ q qs)))
    ∙ split-append b'/' p "/" (join "/" (List.◌∷◌ q qs)) refl lacks
    ∙ ap (λ ps. List.◌∷◌ p ps) (split-join q qs rest)

-- The parts of a path, read as `GetGVKFromURL` does.
gvk-join :
    (p : String) (q : String) (qs : List String)
    → is_blank p ≡ false
    → Parts p (List.◌∷◌ q qs)
    → get_gvk_from_url ("/" <> join "/" (List.◌∷◌ p (List.◌∷◌ q qs)))
      ≡ gvk_of_parts (List.◌∷◌ p (List.◌∷◌ q qs))
unfolding get_gvk_from_url trim join
gvk-join p q qs h parts =
    ap (λ s. gvk_of_parts (split b'/' (trim_right slash s)))
      (trim_left-append p ("/" <> join "/" (List.◌∷◌ q qs)) h parts.0)
    ∙ ap (λ s. gvk_of_parts (split b'/' s)) (trim_right-join p (List.◌∷◌ q qs) parts)
    ∙ ap gvk_of_parts (split-join p (List.◌∷◌ q qs) parts)

join-snoc :
    (p : String) (ps : List String) (n : String)
    → join "/" (List.◌∷◌ p (ps ++ List.◌∷◌ n List.[])) ≡ join "/" (List.◌∷◌ p ps) <> "/" <> n
unfolding join
join-snoc p List.[] n = refl
join-snoc p (List.◌∷◌ q qs) n =
    ap (λ s. p <> "/" <> s) (join-snoc q qs n)
    ∙ ap (λ s. p <> s) (sym (append_assoc "/" (join "/" (List.◌∷◌ q qs)) ("/" <> n)))
    ∙ sym (append_assoc p ("/" <> join "/" (List.◌∷◌ q qs)) ("/" <> n))

named_path :
    (p : String) (ps : List String) (n : String)
    → ("/" <> join "/" (List.◌∷◌ p ps)) <> "/" <> n
      ≡ "/" <> join "/" (List.◌∷◌ p (ps ++ List.◌∷◌ n List.[]))
named_path p ps n =
    append_assoc "/" (join "/" (List.◌∷◌ p ps)) ("/" <> n)
    ∙ ap (λ s. "/" <> s) (sym (join-snoc p ps n))

abbrev plural_of : ProxyGroupVersionKind → GroupVersionKind
plural_of g = record { group = g.group; version = g.version; kind = g.url_name }

-- For a kind whose group, version and plural name have no slash and whose plural name is not empty, and
-- a name that has no slash and is not empty, both the path that is registered for the kind and that path
-- with the name behind it are read back as the group, the version and the plural name.
pub get_gvk_from_url-path :
    (g : ProxyGroupVersionKind) (name : String)
    → Lacks b'/' g.group
    → Lacks b'/' g.version
    → Lacks b'/' g.url_name
    → is_blank g.url_name ≡ false
    → Lacks b'/' name
    → is_blank name ≡ false
    → (get_gvk_from_url (path g) ≡ some (plural_of g))
      × (get_gvk_from_url (path g <> "/" <> name) ≡ some (plural_of g))
unfolding path path_parts gvk_of_parts has_char
get_gvk_from_url-path g name group version url_name some_url_name plain some_name =
    elim (Bool-cases (g.group == "")) [
      | inl core ↦
          let same : plural_of (record g { group = "" }) ≡ plural_of g =
            ap (λ x. plural_of (record g { group = x })) (sym ((eq_iff g.group "").0 core)) in
          rw core (
            gvk-join "api" g.version (List.◌∷◌ g.url_name List.[]) refl
                  (refl, (version, (some_url_name, url_name)))
                ∙ ap some same,
            ap get_gvk_from_url
                  (named_path "api" (List.◌∷◌ g.version (List.◌∷◌ g.url_name List.[])) name)
                ∙ gvk-join "api" g.version (List.◌∷◌ g.url_name (List.◌∷◌ name List.[])) refl
                    (refl, (version, (url_name, (some_name, plain))))
                ∙ ap some same,
          )
      | inr named ↦ rw named (
        gvk-join "apis" g.group (List.◌∷◌ g.version (List.◌∷◌ g.url_name List.[])) refl
            (refl, (group, (version, (some_url_name, url_name)))),
        ap get_gvk_from_url (
              named_path "apis"
                (List.◌∷◌ g.group (List.◌∷◌ g.version (List.◌∷◌ g.url_name List.[]))) name)
            ∙ gvk-join "apis" g.group
                (List.◌∷◌ g.version (List.◌∷◌ g.url_name (List.◌∷◌ name List.[]))) refl
                (refl, (group, (version, (url_name, (some_name, plain))))),
      )
    ]
