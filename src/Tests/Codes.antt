-- ===== src/Tests/Codes.antt =====
-- Instances of the theorems on names, Secrets and the rules of the CRD.
use mathlib.Core.Option.{or_else}
use tsidp_operator.Prelude.{
  ◌≡◌, ◌⊎◌, ◌↔◌, refl, true, false, [], ◌∷◌, Option, none, some, nat_eq, string_eq, if◌then◌else◌,
}
use tsidp_operator.Prelude.Map.{lookup}
use tsidp_operator.Text.{Text, runes, text_eq, lower, lower_ascii}
use tsidp_operator.Text.Find.{has_substring}
use tsidp_operator.Text.Trim.{trim_space}
use tsidp_operator.Fault.{ok}
use tsidp_operator.Api.{Secret, SecretTemplate, recreate}
use tsidp_operator.Api.Admission.{admits_uri, admits_uris}
use tsidp_operator.Api.Edits.{admits_uris-any_rejected}
use tsidp_operator.Fake.Handlers.{any_rejected, edit_rejects}
use tsidp_operator.Controller.Names.{fingerprint, registered_name}
use tsidp_operator.Controller.Names.Ownership.{IsAdmitted, fingerprint_iff}
use tsidp_operator.Controller.Secrets.{
  apply_secret_template, converge_secret, set_credentials, set_secret_metadata, controlled_by,
  recorded_keys, insert_all, managed_secret_labels, template_labels,
}
use tsidp_operator.Controller.Secrets.Template.{
  recorded-apply, lookup-labels_twice, keys_of, is_some,
}
use tsidp_operator.Controller.Registration.{holds_credentials}
use tsidp_operator.Controller.Registration.Credentials.{
  converge_secret-owned, refreshed-holds_credentials, registered-holds_credentials,
}
use tsidp_operator.Manager.{scope, exits, fill}
use tsidp_operator.Manager.Namespaces.{sees, sees-join}
use tsidp_operator.Text.Lines.{split, join}
use tsidp_operator.Text.{is_space}
use tsidp_operator.Prelude.{contains}
use tsidp_operator.Manager.Options.{default_flags, options}
use tsidp_operator.Manager.Selector.{selects, converge_secret-selected}
use tsidp_operator.Tests.Cluster.{cluster, cluster-IsLawful, own}
use tsidp_operator.Tests.Objects.{
  app, credentials, blank_secret, metadata, issued, template, callback,
}

pub admitted : (id : Text) → IsAdmitted (app id recreate)
unfolding has_substring nat_eq
admitted id = record {
  name = ((refl, (refl, (refl, tt))));
  name_not_empty = refl;
  namespace = ((refl, (refl, (refl, tt))));
  uid =
      ((
        refl,
        (refl, (refl, (refl, (refl, (refl, (refl, (refl, (refl, (refl, (refl, (refl, tt))))))))))),
      ));
  client_name = refl;
}

fingerprint_iff_example :
    (has_substring (registered_name (app [] recreate)) (fingerprint (app (runes "c1") recreate))
      ≡ true)
    ↔ ((runes "web" ≡ runes "web")
        × (runes "app" ≡ runes "app")
        × (runes "01234567" ≡ runes "01234567"))
fingerprint_iff_example =
    fingerprint_iff (app [] recreate) (app (runes "c1") recreate) (admitted [])
      (admitted (runes "c1"))

abbrev new_secret : Secret
new_secret = record blank_secret { created = false }

-- The Secret that a write leaves.
abbrev labelled : Secret → Secret
labelled s =
    let t = apply_secret_template cluster s none in
    record t { labels = insert_all managed_secret_labels t.labels }

abbrev written : Secret
written =
    own (app [] recreate) (set_credentials issued metadata (callback ∷ []) (labelled new_secret))

accepted :
    converge_secret cluster
      (app [] recreate)
      (set_credentials issued metadata (callback ∷ []))
      new_secret
    ≡ ok written
unfolding converge_secret set_credentials set_secret_metadata apply_secret_template
accepted = refl

registered-holds_credentials_example : holds_credentials (runes "c9") written ≡ true
registered-holds_credentials_example =
    registered-holds_credentials cluster-IsLawful (app [] recreate) metadata (callback ∷ [])
      new_secret written issued refl accepted

converge_secret-owned_example :
    ((new_secret.created ≡ false) ⊎ (controlled_by cluster (app [] recreate) new_secret ≡ true))
    × (controlled_by cluster (app [] recreate) written ≡ true)
converge_secret-owned_example =
    converge_secret-owned cluster-IsLawful (app [] recreate)
      (set_credentials issued metadata (callback ∷ [])) new_secret written accepted

abbrev refreshed : Secret
refreshed =
    own (app (runes "c1") recreate)
      (set_secret_metadata metadata (callback ∷ []) (labelled (credentials (runes "c1"))))

refresh_accepted :
    converge_secret cluster
      (app (runes "c1") recreate)
      (set_secret_metadata metadata (callback ∷ []))
      (credentials (runes "c1"))
    ≡ ok refreshed
unfolding converge_secret set_secret_metadata apply_secret_template controlled_by text_eq
refresh_accepted = refl

refreshed-holds_credentials_example :
    holds_credentials (runes "c1") refreshed
    ≡ holds_credentials (runes "c1") (credentials (runes "c1"))
refreshed-holds_credentials_example =
    refreshed-holds_credentials cluster-IsLawful (app (runes "c1") recreate) metadata
      (callback ∷ []) (credentials (runes "c1")) refreshed (runes "c1") refresh_accepted

converge_secret-selected_example :
    selects (options default_flags none).cache.secret_labels refreshed.labels ≡ true
converge_secret-selected_example =
    converge_secret-selected cluster-IsLawful default_flags none (app (runes "c1") recreate) none
      metadata (callback ∷ []) (credentials (runes "c1")) refreshed refresh_accepted

abbrev first : Option SecretTemplate
first = some (template (("tier", "web") ∷ []))

abbrev second : Option SecretTemplate
second = some (template (("team", "a") ∷ []))

recorded-apply_example :
    recorded_keys cluster (apply_secret_template cluster blank_secret first) ≡ keys_of first
recorded-apply_example = recorded-apply cluster blank_secret first cluster-IsLawful

lookup-labels_twice_example :
    lookup "tier"
      (apply_secret_template cluster
        (apply_secret_template cluster blank_secret first)
        second).labels
    ≡ or_else (lookup "tier" (template_labels second)) (
        if is_some (lookup "tier" (template_labels first))
        then none
        else lookup "tier" (apply_secret_template cluster blank_secret first).labels)
lookup-labels_twice_example =
    lookup-labels_twice cluster cluster-IsLawful blank_secret first second "tier"

-- The key "tier" of the first template is gone after the second.
first_label_gone :
    lookup "tier"
      (apply_secret_template cluster
        (apply_secret_template cluster blank_secret first)
        second).labels
    ≡ none
unfolding string_eq lookup or_else
first_label_gone = lookup-labels_twice cluster cluster-IsLawful blank_secret first second "tier"

admits_uris-any_rejected_example : any_rejected (callback ∷ []) ≡ false
unfolding lower nat_eq lower_ascii admits_uris has_substring
admits_uris-any_rejected_example = admits_uris-any_rejected (callback ∷ []) (refl, tt) refl

-- A URI that the CRD admits and the form rejects: "f", U+0130, "le:x".
abbrev dotted : Text
dotted = 0x66 ∷ 0x130 ∷ runes "le:x"

dotted_apart : (admits_uri dotted ≡ true) × (edit_rejects dotted ≡ true)
unfolding admits_uri edit_rejects lower lower_ascii nat_eq has_substring
dotted_apart = (refl, refl)

-- A flag of blanks ends the program.
blank_flag : scope (runes " , ") ≡ exits
unfolding scope fill split trim_space is_space nat_eq
blank_flag = refl

sees-join_example :
    sees (scope (join 0x2c (runes "web" ∷ runes "db" ∷ []))) (runes "db")
    ≡ contains (runes "web" ∷ runes "db" ∷ []) (runes "db")
unfolding is_space nat_eq join
sees-join_example =
    sees-join (runes "web") (runes "db" ∷ []) (runes "db")
      ((refl, (refl, (refl, tt))), ((refl, (refl, tt)), tt))
      ((refl, (refl, (refl, tt))), ((refl, (refl, tt)), tt)) refl refl
