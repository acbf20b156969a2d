-- ===== src/Controller/Secrets/Template.antt =====
-- How `applySecretTemplate` converges: the labels and annotations after a template, and after
-- another one on top of it.
use mathlib.Core.Option.{or_else}
use tsidp_operator.Prelude.{
  ◌≡◌, ◌≢◌, refl, ◌∙◌, Bool, true, false, List, [], ◌∷◌, Option, none, some, String, string_eq,
  contains, if◌then◌else◌, arith,
}
use tsidp_operator.Prelude.Map.{Map, keys, lookup, erase, lookup-insert, lookup-erase}
use tsidp_operator.Api.{Secret, SecretTemplate}
use tsidp_operator.Controller.Environment.{Environment, IsLawful, AppliedTemplateKeys}
use tsidp_operator.Controller.Secrets.{
  apply_secret_template, recorded_keys, insert_all, erase_stale, record_keys, template_labels,
  template_annotations, template_keys_annotation, read_keys,
}
use tsidp_operator.Controller.Secrets.Keys.{sort_strings, contains-sort_strings}

abbrev pub is_some {ℓ} : {A : Type ℓ} → Option A → Bool
is_some none = false
is_some (some a) = true

contains-keys : (k : String) (m : Map String String) → contains (keys m) k ≡ is_some (lookup k m)
unfolding keys lookup
contains-keys k [] = refl
contains-keys k ((j, v) ∷ m) = ground (arith, contains-keys k m)

pub lookup-insert_all :
    (k : String) (cur m : Map String String)
    → lookup k (insert_all cur m) ≡ or_else (lookup k cur) (lookup k m)
unfolding insert_all or_else lookup
lookup-insert_all k [] m = refl
lookup-insert_all k ((j, v) ∷ cur) m =
    ground (arith, lookup-insert k j v (insert_all cur m), lookup-insert_all k cur m)

lookup-erase_stale :
    (k : String) (prev : List String) (cur m : Map String String)
    → lookup k (erase_stale prev cur m) ≡ (
        if contains prev k
        then (if is_some (lookup k cur) then lookup k m else none)
        else lookup k m)
unfolding erase_stale
lookup-erase_stale k [] cur m = refl
lookup-erase_stale k (j ∷ prev) cur m = ground (
  arith,
  lookup-erase_stale k prev cur m,
  lookup-erase_stale k prev cur (erase j m),
  lookup-erase k j m,
)

-- The value of a key after a template: the template's, else none if the template before it had set
-- the key, else the old one.
abbrev pub converged : String → Map String String → List String → Map String String → Option String
converged k cur prev m = or_else (lookup k cur) (if contains prev k then none else lookup k m)

lookup-converged :
    (k : String) (prev : List String) (cur m : Map String String)
    → lookup k (insert_all cur (erase_stale prev cur m)) ≡ converged k cur prev m
unfolding or_else
lookup-converged k prev cur m =
    rw lookup-insert_all (ground (arith, lookup-erase_stale k prev cur m))

abbrev pub keys_of : Option SecretTemplate → AppliedTemplateKeys
keys_of t = record {
  labels = sort_strings (keys (template_labels t));
  annotations = sort_strings (keys (template_annotations t));
}

module _ (E : Environment) where
  lookup-record_keys :
      (k : String) (cur : AppliedTemplateKeys) (m : Map String String)
      → k ≢ template_keys_annotation
      → lookup k (record_keys E cur m) ≡ lookup k m
  lookup-record_keys k cur m h = ground (
    arith,
    lookup-erase k template_keys_annotation m,
    lookup-insert k template_keys_annotation (E.marshal_keys cur) m,
  )

  read-record_keys :
      IsLawful E
      → (cur : AppliedTemplateKeys) (m : Map String String)
      → read_keys E (lookup template_keys_annotation (record_keys E cur m)) ≡ cur
  read-record_keys L cur m = ground (
    arith,
    lookup-erase template_keys_annotation template_keys_annotation m,
    lookup-insert template_keys_annotation template_keys_annotation (E.marshal_keys cur) m,
    L.unmarshal-marshal cur,
  )

module _ (E : Environment) (s : Secret) (t : Option SecretTemplate) where
  -- After a template each label has the template's value if that has the key, is gone if the
  -- recorded keys have it and the template does not, and else is as before.
  pub lookup-labels :
      (k : String)
      → lookup k (apply_secret_template E s t).labels
        ≡ converged k (template_labels t) (recorded_keys E s).labels s.labels
  unfolding apply_secret_template
  lookup-labels k = lookup-converged k _ _ s.labels

  -- After a template each annotation but the controller's own record has the template's value if
  -- that has the key, is gone if the recorded keys have it and the template does not, and else is
  -- as before.
  pub lookup-annotations :
      (k : String)
      → k ≢ template_keys_annotation
      → lookup k (apply_secret_template E s t).annotations
        ≡ converged k (template_annotations t) (recorded_keys E s).annotations s.annotations
  unfolding apply_secret_template
  lookup-annotations k h = lookup-record_keys E k _ _ h ∙ lookup-converged k _ _ s.annotations

  -- With lawful cluster libraries, the keys that the Secret records after a template are the
  -- sorted keys of that template.
  pub recorded-apply : IsLawful E → recorded_keys E (apply_secret_template E s t) ≡ keys_of t
  unfolding apply_secret_template
  recorded-apply L = read-record_keys E L (keys_of t) _

module _ (E : Environment) (L : IsLawful E) (s : Secret) (t u : Option SecretTemplate) where
  -- With lawful cluster libraries, after one template and then another each label has the second
  -- template's value if that has the key, is gone if only the first template set it, and else is
  -- as after the first.
  pub lookup-labels_twice :
      (k : String)
      → lookup k (apply_secret_template E (apply_secret_template E s t) u).labels
        ≡ or_else (lookup k (template_labels u)) (
            if is_some (lookup k (template_labels t))
            then none
            else lookup k (apply_secret_template E s t).labels)
  lookup-labels_twice k = rw (
    lookup-labels E (apply_secret_template E s t) u,
    recorded-apply E s t L,
    contains-sort_strings,
    contains-keys,
  )

  -- With lawful cluster libraries, after one template and then another each annotation but the
  -- controller's own record has the second template's value if that has the key, is gone if only
  -- the first template set it, and else is as after the first.
  pub lookup-annotations_twice :
      (k : String)
      → k ≢ template_keys_annotation
      → lookup k (apply_secret_template E (apply_secret_template E s t) u).annotations
        ≡ or_else (lookup k (template_annotations u)) (
            if is_some (lookup k (template_annotations t))
            then none
            else lookup k (apply_secret_template E s t).annotations)
  lookup-annotations_twice k h = rw (
    lookup-annotations E (apply_secret_template E s t) u k h,
    recorded-apply E s t L,
    contains-sort_strings,
    contains-keys,
  )
