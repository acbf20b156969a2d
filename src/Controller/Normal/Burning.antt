-- ===== src/Controller/Normal/Burning.antt =====
-- A registration of the object's that no Secret backs: the pass that finds it deletes it.
use tsidp_operator.Prelude.{
  ℕ, suc, ◌≤◌, ◌<◌, ◌≡◌, refl, sym, subst, true, false, [], ◌∷◌, none, some, All, ◌==◌, ==_refl,
  Bool-cases, inl, inr, if◌then◌else◌, arith,
}
use tsidp_operator.Prelude.Map.{Map, lookup, erase}
use tsidp_operator.Text.{Text, is_empty, text_eq}
use tsidp_operator.Text.Find.{has_substring}
use tsidp_operator.Fault.{ok}
use tsidp_operator.Tsidp
use tsidp_operator.Tsidp.{FunnelClient, ProviderMetadata}
use tsidp_operator.Fake.{Client, Server}
use tsidp_operator.Fake.Handlers.{blank}
use tsidp_operator.Fake.Json.{listing}
use tsidp_operator.Api.{OidcClient}
use tsidp_operator.Controller.Environment.{Environment, IsLawful}
use tsidp_operator.Controller.Names.{secret_name, fingerprint}
use tsidp_operator.Controller.Secrets.{controlled_by}
use tsidp_operator.Controller.Status.{second, after, with_issuer}
use tsidp_operator.Controller.Registration.{
  burned_orphan, adoptable, find_owned, adopt_or_burn, register_or_adopt,
}
use tsidp_operator.Controller.Deletion.Sweep.{RunsFake}
use tsidp_operator.Controller.Store.{RunsStore, CanOwn, At, Comes, handle-Comes}
use tsidp_operator.Controller.Store.Calls.{
  list_clients-Comes, delete_client-Comes, emit-At, secret_adoptable-absent,
}
use tsidp_operator.Controller.Normal.{with_metadata, reconcile_normal}
use tsidp_operator.Controller.Normal.Steady.{
  continue-Comes, IsPassable, reconcile_normal-Comes, rename_secret-Comes,
}
use tsidp_operator.Controller.Normal.Adoption.{establish-Comes, continue-stop}

-- The number of the clients whose name carries the fingerprint.
unfoldable pub orphans : Text → Map Text Client → ℕ
orphans fp [] = 0
orphans fp ((k, c) ∷ m) =
    let n = orphans fp m in if has_substring c.client_name fp then suc n else n

-- Each client stands under its own id, which is not empty.
abbrev pub IsKeyed : Map Text Client → Type 0
IsKeyed m = All (λ (e : Text × Client). (e.1.client_id ≡ e.0) × (is_empty e.0 ≡ false)) m

pub erase-IsKeyed : (id : Text) (m : Map Text Client) → IsKeyed m → IsKeyed (erase id m)
unfolding erase
erase-IsKeyed id [] h = tt
erase-IsKeyed id ((k, c) ∷ m) (h, hs) = elim (Bool-cases (id == k)) [
  | inl e ↦ rw e (erase-IsKeyed id m hs)
  | inr e ↦ rw e (h, erase-IsKeyed id m hs)
]

pub orphans-erase : (fp id : Text) (m : Map Text Client) → orphans fp (erase id m) ≤ orphans fp m
unfolding orphans erase
orphans-erase fp id [] = omega arith
orphans-erase fp id ((k, c) ∷ m) = ground (arith, orphans-erase fp id m)

pub orphans-first :
    (fp k : Text) (c : Client) (m : Map Text Client)
    → has_substring c.client_name fp ≡ true
    → orphans fp (erase k ((k, c) ∷ m)) < orphans fp ((k, c) ∷ m)
unfolding orphans erase
orphans-first fp k c m h = ground (arith, ==_refl k, orphans-erase fp k m)

-- A client that the loop finds is held, and its deletion leaves fewer of them.
pub record IsOrphan (fp : Text) (fc : FunnelClient) (m : Map Text Client) : Type 0 where
  pub client : Client
  pub found : lookup fc.client_id m ≡ some client
  pub not_empty : is_empty fc.client_id ≡ false
  pub fewer : orphans fp (erase fc.client_id m) < orphans fp m

pub find_owned-IsOrphan :
    (fp : Text) (fc : FunnelClient) (m : Map Text Client)
    → IsKeyed m
    → find_owned fp (listing m) ≡ some fc
    → IsOrphan fp fc m
unfolding find_owned orphans erase lookup blank
find_owned-IsOrphan fp fc [] h f = cc
find_owned-IsOrphan fp fc ((k, c) ∷ m) ((e, n), hs) f =
    elim (Bool-cases (has_substring c.client_name fp)) [
      | inl q ↦
          let same : fc.client_id ≡ k = ground arith in
          record {
            client = c;
            found = ground arith;
            not_empty = rw same n;
            fewer =
                subst (λ i. orphans fp (erase i ((k, c) ∷ m)) < orphans fp ((k, c) ∷ m)) (sym same)
                  (orphans-first fp k c m q);
          }
      | inr q ↦
          let r = find_owned-IsOrphan fp fc m hs (ground arith) in
          elim (Bool-cases (fc.client_id == k)) [
            | inl d ↦ record {
              client = c;
              found = ground arith;
              not_empty = r.not_empty;
              fewer = ground (arith, r.fewer);
            }
            | inr d ↦ record {
              client = r.client;
              found = ground (arith, r.found);
              not_empty = r.not_empty;
              fewer = ground (arith, r.fewer);
            }
          ]
    ]

module _ {E : Environment} {now : Text} {b : RunsFake E now} (oc : OidcClient)
    (st : RunsStore E now b oc.namespace (secret_name oc)) (c : Tsidp.Client) (v : Server) where
  burn-Comes :
      (disc : ProviderMetadata) (fc : FunnelClient) (w : E.World)
      → find_owned (fingerprint oc) (listing v.clients) ≡ some fc
      → IsOrphan (fingerprint oc) fc v.clients
      → At st v none w
      → Comes st
          (ok (oc, burned_orphan))
          (record v { clients = erase fc.client_id v.clients })
          none
          (register_or_adopt E c oc disc w)
  unfolding register_or_adopt adopt_or_burn adoptable
  burn-Comes disc fc w f o at =
      handle-Comes st _ w _ _ (secret_adoptable-absent oc st w at) (λ w₁ at₁.
        handle-Comes st _ w₁ _ _ (list_clients-Comes st c w₁ at₁) (λ w₂ at₂.
          let d = delete_client-Comes st c w₂ at₂ fc.client_id o.client o.not_empty o.found in
          rw (f, adopt_or_burn, d.result) (record { result = refl; at = emit-At st _ d.at })))

module _ {E : Environment} {now : Text} {b : RunsFake E now} (L : IsLawful E) (oc : OidcClient)
    (st : RunsStore E now b oc.namespace (secret_name oc)) (own : CanOwn E oc) (c : Tsidp.Client)
    (resync : ℕ) (v : Server) where
  -- A pass over an object without a client and without a Secret, with an orphan on the server.
  pub burning_pass-Comes :
      (fc : FunnelClient) (w : E.World)
      → IsPassable E now b L oc st own c resync v
      → is_empty oc.status.client_id ≡ true
      → find_owned (fingerprint oc) (listing v.clients) ≡ some fc
      → IsOrphan (fingerprint oc) fc v.clients
      → At st v none w
      → Comes st
          (with_issuer v.issuer oc, after second)
          (record v { clients = erase fc.client_id v.clients })
          none
          (reconcile_normal E c resync oc w)
  unfolding with_metadata secret_name fingerprint controlled_by
  burning_pass-Comes fc w p n f o at =
      let oc' = with_issuer v.issuer oc in
      reconcile_normal-Comes L oc st own c resync v none w p.good p.issuer at (λ w₁ at₁.
        continue-Comes st c resync _ _
          (rename_secret-Comes L oc' st own c resync v none w₁ p.unrenamed at₁)
          (λ w₂ at₂. continue-stop st c resync _ _ (
            establish-Comes st c resync oc' _ burned_orphan _ w₂ n (
              burn-Comes oc' st c v _ fc w₂ f
                (record {
                  client = o.client;
                  found = o.found;
                  not_empty = o.not_empty;
                  fewer = o.fewer;
                })
                at₂))))
