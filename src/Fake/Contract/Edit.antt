-- ===== src/Fake/Contract/Edit.antt =====
-- `UpdateClient`: the form is posted, and the result is judged by what is read back.
use mathlib.Core.List.{Perm}
use mathlib.Core.List.Perm
use tsidp_operator.Prelude.{
  ℕ, ◌≡◌, ◌↔◌, refl, ap, ◌∙◌, List, [], ◌∷◌, ◌++◌, Option, none, some, true, false, arith, nat_eq,
  string_eq, subst, sym,
}
use tsidp_operator.Prelude.Map.{lookup, insert, lookup-insert}
use tsidp_operator.Text.{Text, text_eq, runes}
use tsidp_operator.Text.Trim.{trim_space, trim_space_idem}
use tsidp_operator.Text.Lines.{trim_all, join, AllSolid, trim_all-split-join, trim_all-NoSpace}
use tsidp_operator.Text.Order.{equal_sorted_iff}
use tsidp_operator.Wire.{post, Body, Request}
use tsidp_operator.Fault.{ok}
use tsidp_operator.Transport.{Http}
use tsidp_operator.Tsidp
use tsidp_operator.Tsidp.{FunnelClient}
use tsidp_operator.Tsidp.Methods.{edited, verified, same_set, get_client, update_client}
use tsidp_operator.Fake.{Client, Server}
use tsidp_operator.Fake.Handlers.{
  serve_edit, serve_http, edit_client, edit_parsed, blank, any_rejected, html,
}
use tsidp_operator.Fake.Json.{visible}
use tsidp_operator.Fake.Contract.{fake_http, request, route_edit}
use tsidp_operator.Fake.Contract.Reads.{shown, get_client_lem}

-- The multiset test that UpdateClient confirms an edit by holds if and only if the two lists are
-- permutations of one another.
pub same_set_iff : (a b : List Text) → (same_set a b ≡ true) ↔ Perm a b
unfolding same_set
same_set_iff a b = equal_sorted_iff a b

verified-ok :
    (id name : Text) (uris : List Text) (fc : FunnelClient)
    → verified id name uris fc ≡ ok tt
    → (fc.client_name ≡ name) × (same_set fc.redirect_uris uris ≡ true)
unfolding verified
verified-ok id name uris fc h = ground arith

-- The request that `UpdateClient` posts.
abbrev pub edit_request : Tsidp.Client → Text → Text → List Text → Request
edit_request c id name uris =
    request post c.base_url (runes "/edit/" ++ id) "application/x-www-form-urlencoded"
      (Body.form (("name", trim_space name) ∷ ("redirect_uris", join 0x0a (trim_all uris)) ∷ []))

module _ (H : Http) (c : Tsidp.Client) where
  read_back_ok :
      (id name : Text) (uris : List Text) (w : H.World)
      → (update_client H c id name uris w).0 ≡ ok tt
      → let w' = (H.send (edit_request c id name uris) w).1 in
        (fc : FunnelClient) × ((get_client H c id w').0 ≡ ok fc)
        × ((update_client H c id name uris w).1 ≡ (get_client H c id w').1)
        × (verified id (trim_space name) (trim_all uris) fc ≡ ok tt)
  unfolding update_client
  read_back_ok id name uris w h = ground arith

  -- Over any transport, if UpdateClient succeeds, then the client that was read after the form was
  -- posted has the trimmed name and a permutation of the trimmed URIs, and the world is that after
  -- the read.
  pub update_client-ok :
      (id name : Text) (uris : List Text) (w : H.World)
      → (update_client H c id name uris w).0 ≡ ok tt
      → let w' = (H.send (edit_request c id name uris) w).1 in
        (fc : FunnelClient) × ((get_client H c id w').0 ≡ ok fc)
        × ((update_client H c id name uris w).1 ≡ (get_client H c id w').1)
        × (fc.client_name ≡ trim_space name)
        × Perm fc.redirect_uris (trim_all uris)
  update_client-ok id name uris w h =
      let (fc, got, world, same) = read_back_ok id name uris w h in
      let (names, sets) = verified-ok id _ _ fc same in
      (fc, got, world, names, (same_set_iff _ _).0 sets)

shown-ok :
    (o : Option Client) (fc : FunnelClient)
    → shown o ≡ ok fc
    → (cl : Client) × (o ≡ some cl) × (fc ≡ visible (blank cl))
shown-ok none fc h = cc
shown-ok (some cl) fc h = (cl, refl, cc)

-- Against the fake, if UpdateClient succeeds for an id that is not empty, then the server holds a
-- client under it with the trimmed name and a permutation of the trimmed URIs.
pub update_client-stored :
    (now : Text) (c : Tsidp.Client) (x : ℕ) (id name : Text) (uris : List Text) (s : Server)
    → (update_client (fake_http now) c (x ∷ id) name uris s).0 ≡ ok tt
    → (cl : Client) × (lookup
          (x ∷ id)
          (update_client (fake_http now) c (x ∷ id) name uris s).1.clients
        ≡ some cl)
      × (cl.client_name ≡ trim_space name)
      × Perm cl.redirect_uris (trim_all uris)
unfolding blank
update_client-stored now c x id name uris s h =
    let w = (serve_http now (edit_request c (x ∷ id) name uris) s).1 in
    let (fc, got, world, names, same) = update_client-ok (fake_http now) c (x ∷ id) name uris s h in
    let (cl, found, eq) =
      shown-ok (lookup (x ∷ id) w.clients) fc
        (sym (ap (λ r. r.0) (get_client_lem now c x id w)) ∙ got) in
    (
      cl,
      ap (λ (t : Server). lookup (x ∷ id) t.clients)
            (world ∙ ap (λ r. r.1) (get_client_lem now c x id w))
          ∙ found,
      sym (ap (λ (f : FunnelClient). f.client_name) eq) ∙ names,
      subst (λ (f : FunnelClient). Perm f.redirect_uris (trim_all uris)) eq same,
    )

pub edit_accepted : edited (html "<html><body>client updated</body></html>") ≡ ok tt
unfolding edited
edit_accepted = refl

-- The client as the fake keeps it after an accepted edit.
abbrev pub renamed : Text → List Text → Client → Client
renamed name uris cl = record cl { client_name = trim_space name; redirect_uris = uris }

-- The server reads from the form what the operator wrote.
edit_form :
    (id name u : Text) (us : List Text) (s : Server) (cl : Client)
    → lookup id s.clients ≡ some cl
    → AllSolid (u ∷ us)
    → edit_parsed id
        (some (("name", trim_space name) ∷ ("redirect_uris", join 0x0a (u ∷ us)) ∷ []))
        s
      ≡ edit_client id cl (trim_space name) (u ∷ us) s
unfolding lookup string_eq
edit_form id name u us s cl found solid =
    ground (arith, trim_space_idem name, trim_all-split-join u us solid)

edit_client-allowed :
    (id name u : Text) (us : List Text) (s : Server) (cl : Client)
    → any_rejected (u ∷ us) ≡ false
    → edit_client id cl name (u ∷ us) s ≡ (
      html "<html><body>client updated</body></html>",
      record s {
        clients = insert id (record cl { client_name = name; redirect_uris = u ∷ us }) s.clients;
      },
    )
unfolding edit_client
edit_client-allowed id name u us s cl allowed = rw allowed

module _ (now : Text) (c : Tsidp.Client) (x : ℕ) (id name u : Text) (us : List Text) (s : Server)
    (cl : Client) (found : lookup (x ∷ id) s.clients ≡ some cl) (solid : AllSolid (u ∷ us))
    (allowed : any_rejected (u ∷ us) ≡ false) where
  abbrev pub after : Server
  after = record s { clients = insert (x ∷ id) (renamed name (u ∷ us) cl) s.clients }

  pub posted :
      serve_http now (edit_request c (x ∷ id) name (u ∷ us)) s
      ≡ (html "<html><body>client updated</body></html>", after)
  unfolding serve_edit string_eq
  posted =
      rw (route_edit, trim_all-NoSpace (u ∷ us) solid.no_space solid.not_empty)
        (edit_form (x ∷ id) name u us s cl found solid
          ∙ edit_client-allowed (x ∷ id) (trim_space name) u us s cl allowed)

  pub found_after : lookup (x ∷ id) after.clients ≡ some (renamed name (u ∷ us) cl)
  found_after = rw lookup-insert (ground arith)

  pub confirmed :
      verified (x ∷ id) (trim_space name) (u ∷ us) (visible (blank (renamed name (u ∷ us) cl)))
      ≡ ok tt
  unfolding verified blank
  confirmed = ground (arith, (equal_sorted_iff (u ∷ us) (u ∷ us)).1 (Perm.refl (u ∷ us)))

  -- Against the fake, for a client with a non-empty id that the server holds, and at least one
  -- redirect URI, all without white space and not empty, which the form does not reject,
  -- UpdateClient succeeds and leaves the server with the trimmed name and just these URIs for the
  -- client, all else as before.
  pub update_client-accepted :
      update_client (fake_http now) c (x ∷ id) name (u ∷ us) s ≡ (ok tt, after)
  unfolding update_client
  update_client-accepted = rw (
    posted,
    edit_accepted,
    get_client_lem,
    found_after,
    trim_all-NoSpace (u ∷ us) solid.no_space solid.not_empty,
    confirmed,
  )
