-- ===== src/Controller/Secrets.antt =====
-- What the controller makes of the credentials Secret: its template metadata, its contents, and the
-- guarded write.
pub mod Keys
pub mod Template
use tsidp_operator.Prelude.{
  ℕ, Bool, true, false, ◌&&◌, ◌||◌, not, List, [], ◌∷◌, ◌++◌, Option, none, some, String, ◌==◌,
  string_eq, contains, if◌then◌else◌,
}
use tsidp_operator.Prelude.Map.{Map, lookup, insert, erase, keys}
use tsidp_operator.Text.{Text, text_eq, runes}
use tsidp_operator.Text.Find.{trim_suffix}
use tsidp_operator.Text.Lines.{join}
use tsidp_operator.Fault.{Exec, Result, ok, err, errorf, wrap, secret_conflict, is_not_found}
use tsidp_operator.Tsidp.{ProviderMetadata, FunnelClient}
use tsidp_operator.Api.{OidcClient, Secret, SecretTemplate, OwnerReference}
use tsidp_operator.Controller.Environment.{Environment, AppliedTemplateKeys}
use tsidp_operator.Controller.Names.{secret_name}
use tsidp_operator.Controller.Secrets.Keys.{sort_strings}

abbrev pub template_keys_annotation : String
template_keys_annotation = "tsidp.isvaldi-consulting.github.io/template-keys"

-- `ManagedSecretLabels`
abbrev pub managed_secret_labels : Map String String
managed_secret_labels = ("app.kubernetes.io/managed-by", "tsidp-operator") ∷ []

-- `for k, v := range cur { m[k] = v }`
unfoldable pub insert_all : Map String String → Map String String → Map String String
insert_all [] m = m
insert_all ((k, v) ∷ cur) m = insert k v (insert_all cur m)

-- `for _, k := range prev { if _, keep := cur[k]; !keep { delete(m, k) } }`
unfoldable pub erase_stale : List String → Map String String → Map String String → Map String String
erase_stale [] cur m = m
erase_stale (k ∷ prev) cur m =
    erase_stale prev cur (elim (lookup k cur) [ some v ↦ m | none ↦ erase k m ])

abbrev pub template_labels : Option SecretTemplate → Map String String
template_labels none = []
template_labels (some t) = t.labels

abbrev pub template_annotations : Option SecretTemplate → Map String String
template_annotations none = []
template_annotations (some t) = t.annotations

abbrev pub no_keys : AppliedTemplateKeys
no_keys = record { labels = []; annotations = [] }

-- `setSecretMetadata`
unfoldable pub set_secret_metadata : ProviderMetadata → List Text → Secret → Secret
set_secret_metadata disc redirect_uris s = record s {
  contents = insert "redirect_uris" (join 0x0a redirect_uris) (
      insert "jwks_uri" disc.jwks_uri (
        insert "userinfo_endpoint" disc.userinfo_endpoint (
          insert "token_endpoint" disc.token_endpoint (
            insert "authorization_endpoint" disc.authorization_endpoint (
              insert "discovery_endpoint"
                (trim_suffix disc.issuer (runes "/") ++ runes "/.well-known/openid-configuration")
                (insert "issuer" disc.issuer s.contents))))));
}

-- The mutation that `registerOrAdopt` hands to `upsertSecret`.
unfoldable pub set_credentials : FunnelClient → ProviderMetadata → List Text → Secret → Secret
unfolding set_secret_metadata
set_credentials fc disc redirect_uris s = set_secret_metadata disc redirect_uris (record s {
  contents = insert "client_secret" fc.client_secret (insert "client_id" fc.client_id s.contents);
})

module _ (E : Environment) where
  abbrev pub read_keys : Option String → AppliedTemplateKeys
  read_keys none = no_keys
  read_keys (some raw) = E.unmarshal_keys raw

  -- The keys that the last template applied, as the annotation records them.
  unfoldable pub recorded_keys : Secret → AppliedTemplateKeys
  recorded_keys s = read_keys (lookup template_keys_annotation s.annotations)

  -- The end of `applySecretTemplate`: no keys, no annotation.
  abbrev record_keys : AppliedTemplateKeys → Map String String → Map String String
  record_keys cur m = elim cur.labels [
    | [] ↦ elim cur.annotations [
      | [] ↦ erase template_keys_annotation m
      | a ∷ rest ↦ insert template_keys_annotation (E.marshal_keys cur) m
    ]
    | l ∷ rest ↦ insert template_keys_annotation (E.marshal_keys cur) m
  ]

  -- `applySecretTemplate`
  unfoldable pub apply_secret_template : Secret → Option SecretTemplate → Secret
  unfolding recorded_keys
  apply_secret_template s tpl =
      let prev = recorded_keys s in
      let cur_labels = template_labels tpl in
      let cur_annotations = template_annotations tpl in
      let cur : AppliedTemplateKeys = record {
        labels = sort_strings (keys cur_labels);
        annotations = sort_strings (keys cur_annotations);
      } in
      record s {
        labels = insert_all cur_labels (erase_stale prev.labels cur_labels s.labels);
        annotations = record_keys cur (
            insert_all cur_annotations
              (erase_stale prev.annotations cur_annotations s.annotations));
      }

  -- `ref := metav1.GetControllerOf(sec); ref != nil && ref.UID == oc.UID`
  unfoldable pub controlled_by : OidcClient → Secret → Bool
  controlled_by oc s = elim (E.controller_of s) [ none ↦ false | some r ↦ r.uid == oc.uid ]

  abbrev owner_text : Option OwnerReference → Text
  owner_text none = runes "no controller"
  owner_text (some r) = r.kind ++ (runes " " ++ r.name)

  -- What `secretAdoptable` makes of the Secret that it read.
  unfoldable pub vet_secret : OidcClient → Text → Secret → Result (Option Secret)
  unfolding controlled_by
  vet_secret oc name s =
      if controlled_by oc s
      then ok (some s)
      else err (
          wrap
            "%w: Secret %s/%s already exists and is not owned by this OIDCClient (%s); delete it or choose a different spec.secretName"
            (oc.namespace ∷ name ∷ owner_text (E.controller_of s) ∷ []) secret_conflict)

  abbrev adoptable_of : OidcClient → Text → Result Secret → Result (Option Secret)
  adoptable_of oc name (ok s) = vet_secret oc name s
  adoptable_of oc name (err e) =
      if is_not_found e then ok none else err (wrap "reading Secret %s: %w" (name ∷ []) e)

  -- `secretAdoptable`
  unfoldable pub secret_adoptable : OidcClient → Text → Exec E.World (Option Secret)
  unfolding vet_secret
  secret_adoptable oc name w =
      let (r, w') = E.read_secret oc.namespace name w in (adoptable_of oc name r, w')

  -- The function that `upsertSecret` hands to `CreateOrUpdate`.
  unfoldable pub converge_secret : OidcClient → (Secret → Secret) → Secret → Result Secret
  unfolding controlled_by
  converge_secret oc mutate s =
      if s.created && not (controlled_by oc s)
      then err (
          errorf "refusing to overwrite Secret %s/%s: not owned by this OIDCClient"
            (oc.namespace ∷ s.name ∷ []))
      else (let t = apply_secret_template s oc.spec.secret_template in
          let labelled : Secret = record t { labels = insert_all managed_secret_labels t.labels } in
          E.set_controller_reference oc (mutate labelled))

  -- `upsertSecret`
  unfoldable pub upsert_secret : OidcClient → (Secret → Secret) → Exec E.World (Unit {0})
  unfolding converge_secret
  upsert_secret oc mutate =
      E.create_or_update oc.namespace (secret_name oc) (converge_secret oc mutate)
