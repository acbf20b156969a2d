-- ===== src/Manager/Selector.antt =====
-- The Secrets that the reconciler writes are among those that the manager's caches hold.
use tsidp_operator.Prelude.{
  ◌≡◌, ◌∙◌, sym, subst, ap, Bool, true, false, ◌&&◌, List, [], ◌∷◌, Option, none, some, String,
  string_eq, ◌==◌, arith,
}
use tsidp_operator.Prelude.Map.{Map, lookup, lookup-insert}
use tsidp_operator.Text.{Text}
use tsidp_operator.Fault.{ok}
use tsidp_operator.Tsidp.{FunnelClient, ProviderMetadata}
use tsidp_operator.Api.{OidcClient, Secret}
use tsidp_operator.Controller.Environment.{Environment, IsLawful}
use tsidp_operator.Controller.Secrets.{converge_secret, insert_all, managed_secret_labels}
use tsidp_operator.Controller.Registration.Credentials.{
  labelled, converge_secret-inv, mutation, mutation-labels,
}
use tsidp_operator.Manager.Options.{Flags, options}

abbrev has_label : String → String → Option String → Bool
has_label k v none = false
has_label k v (some u) = u == v

-- `SelectorFromSet(set).Matches(labels)`
abbrev pub selects : Map String String → Map String String → Bool
selects [] labels = true
selects ((k, v) ∷ set) labels = has_label k v (lookup k labels) && selects set labels

selects-managed :
    (m : Map String String)
    → selects managed_secret_labels (insert_all managed_secret_labels m) ≡ true
unfolding insert_all
selects-managed m = ground (
  arith,
  lookup-insert "app.kubernetes.io/managed-by" "app.kubernetes.io/managed-by" "tsidp-operator" m,
)

module _ {E : Environment} (L : IsLawful E) (f : Flags) (n : Option (Map Text (Unit {0})))
    (oc : OidcClient) (fc : Option FunnelClient) (disc : ProviderMetadata) (uris : List Text)
    (s t : Secret) where
  -- With lawful cluster libraries, a Secret that a write leaves, whatever labels the template asks
  -- for, has the labels by which the manager's cache selects Secrets.
  pub converge_secret-selected :
      converge_secret E oc (mutation fc disc uris) s ≡ ok t
      → selects (options f n).cache.secret_labels t.labels ≡ true
  unfolding options
  converge_secret-selected h =
      let owner = L.sets_owner oc _ t (converge_secret-inv L oc (mutation fc disc uris) s t h).1 in
      let labels : t.labels ≡ (labelled E oc s).labels =
        ap (λ (u : Secret). u.labels) owner ∙ mutation-labels fc disc uris (labelled E oc s) in
      subst (λ m. selects managed_secret_labels m ≡ true) (sym labels) (selects-managed _)
