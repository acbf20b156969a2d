-- ===== src/Fake/Invariant.antt =====
-- What every request keeps true of the fake's state: a client stands under its own id, and no id
-- that the counter has yet to give out is taken.
use tsidp_operator.Prelude.{
  ℕ, ◌+◌, ◌<◌, ◌≡◌, ◌≢◌, refl, ap, List, [], ◌∷◌, ◌++◌, Option, none, some, true, false,
  if◌then◌else◌, arith, Bool-cases, inl, inr, Bool, String, ◌⊎◌, sym, subst,
}
use tsidp_operator.Prelude.Map.{Map, lookup, insert, erase, lookup-nil, lookup-insert, lookup-erase}
use tsidp_operator.Text.{Text, text_eq, runes}
use tsidp_operator.Text.Decimal.{decimal, decimal-injective}
use tsidp_operator.Wire.{Request, Response}
use tsidp_operator.Fake.{Client, Server}
use tsidp_operator.Fake.Handlers.{
  new_server, serve_http, serve_register, serve_discovery, serve_list, serve_client, serve_edit,
  create_client, edit_client, new_client, any_rejected, create_decoded, edit_found, edit_parsed,
}

abbrev numbered : ℕ → Text
numbered n = runes "fake-client-" ++ decimal n

numbered-injective : (m n : ℕ) → numbered m ≡ numbered n → m ≡ n
numbered-injective m n e = decimal-injective m n (cc)

pub record IsValid (s : Server) : Type 0 where
  pub keyed : (id : Text) (c : Client) → lookup id s.clients ≡ some c → c.client_id ≡ id
  pub unnumbered : (n : ℕ) → s.next_id < n → lookup (numbered n) s.clients ≡ none

pub init-IsValid : (issuer : Text) → IsValid (new_server issuer)
unfolding new_server
init-IsValid issuer = record {
  keyed = λ id c h. cc (lookup-nil {V = Client} id);
  unnumbered = λ n h. lookup-nil (numbered n);
}

module _ (s : Server) (v : IsValid s) (k : Text) where
  keyed-insert :
      (new : Client)
      → new.client_id ≡ k
      → (id : Text) (c : Client) → lookup id (insert k new s.clients) ≡ some c
      → c.client_id ≡ id
  keyed-insert new e id c h = let h' = rw lookup-insert at h in ground (arith, h', v.keyed id c)

  keyed-erase : (id : Text) (c : Client) → lookup id (erase k s.clients) ≡ some c → c.client_id ≡ id
  keyed-erase id c h = let h' = rw lookup-erase at h in ground (arith, h', v.keyed id c)

  -- A write under an id that is held, or that the counter has passed, takes no later id.
  unnumbered-insert :
      (new : Client) (n : ℕ)
      → s.next_id < n
      → k ≢ numbered n
      → lookup (numbered n) (insert k new s.clients) ≡ none
  unnumbered-insert new n h e = rw lookup-insert (ground (arith, v.unnumbered n h))

  unnumbered-erase : (n : ℕ) → s.next_id < n → lookup (numbered n) (erase k s.clients) ≡ none
  unnumbered-erase n h = rw lookup-erase (ground (arith, v.unnumbered n h))

create_client-IsValid :
    (now name : Text) (us : List Text) (s : Server)
    → IsValid s
    → IsValid (create_client now name us s).1
unfolding create_client new_client
create_client-IsValid now name [] s v = v
create_client-IsValid now name (u ∷ us) s v = record {
  keyed = keyed-insert s v _ (new_client now name (u ∷ us) (s.next_id + 1)) refl;
  unnumbered = λ n h.
      unnumbered-insert s v _ _ n (omega arith)
        (λ e. absurd (omega (arith, numbered-injective (s.next_id + 1) n e)));
}

edit_client-IsValid :
    (id : Text) (c : Client) (name : Text) (us : List Text) (s : Server)
    → lookup id s.clients ≡ some c
    → IsValid s
    → IsValid (edit_client id c name us s).1
unfolding edit_client
edit_client-IsValid id c name [] s found v = v
edit_client-IsValid id c name (u ∷ us) s found v = elim (Bool-cases (any_rejected (u ∷ us))) [
  | inl e ↦ rw e v
  | inr e ↦ rw e (record {
    keyed = keyed-insert s v id _ (v.keyed id c found);
    unnumbered = λ n h.
        unnumbered-insert s v id _ n h
          (λ p. cc (v.unnumbered n h, found, ap (λ j. lookup j s.clients) p));
  })
]

-- A change to one of a few states keeps the state valid if each of them is.
either_IsValid : {s t u : Server} → (t ≡ s) ⊎ (t ≡ u) → IsValid s → IsValid u → IsValid t
either_IsValid (inl e) v w = subst IsValid (sym e) v
either_IsValid (inr e) v w = subst IsValid (sym e) w

serve_client-state :
    (r : Request) (id : Text) (s : Server)
    → ((serve_client r id s).1 ≡ s)
      ⊎ ((serve_client r id s).1 ≡ record s { clients = erase id s.clients })
unfolding serve_client
serve_client-state r id s = ground arith

serve_client-IsValid :
    (r : Request) (id : Text) (s : Server) → IsValid s → IsValid (serve_client r id s).1
serve_client-IsValid r id s v =
    either_IsValid (serve_client-state r id s) v
      (record { keyed = keyed-erase s v id; unnumbered = unnumbered-erase s v id })

-- A handler that branches keeps the state valid if its branches do.
if_IsValid :
    (b : Bool) (x y : Response × Server)
    → IsValid x.1
    → IsValid y.1
    → IsValid (if b then x else y).1
if_IsValid true x y v w = v
if_IsValid false x y v w = w

create_decoded-IsValid :
    (now : Text) (d : Option (Text × List Text)) (s : Server)
    → IsValid s
    → IsValid (create_decoded now d s).1
create_decoded-IsValid now none s v = v
create_decoded-IsValid now (some (name, uris)) s v = create_client-IsValid now name uris s v

serve_register-IsValid :
    (now : Text) (r : Request) (s : Server) → IsValid s → IsValid (serve_register now r s).1
unfolding serve_register
serve_register-IsValid now r s v = search (if_IsValid, create_decoded-IsValid)

edit_found-IsValid :
    (id : Text) (form : Map String Text) (o : Option Client) (s : Server)
    → lookup id s.clients ≡ o
    → IsValid s
    → IsValid (edit_found id form o s).1
edit_found-IsValid id form none s found v = v
edit_found-IsValid id form (some c) s found v = edit_client-IsValid id c _ _ s found v

edit_parsed-IsValid :
    (id : Text) (form : Option (Map String Text)) (s : Server)
    → IsValid s
    → IsValid (edit_parsed id form s).1
edit_parsed-IsValid id none s v = v
edit_parsed-IsValid id (some form) s v = edit_found-IsValid id form _ s refl v

serve_edit-IsValid :
    (r : Request) (id : Text) (s : Server) → IsValid s → IsValid (serve_edit r id s).1
unfolding serve_edit
serve_edit-IsValid r id s v = search (if_IsValid, edit_parsed-IsValid)

serve_list-IsValid : (r : Request) (s : Server) → IsValid s → IsValid (serve_list r s).1
unfolding serve_list
serve_list-IsValid r s v = subst IsValid {x = s} (ground arith) v

-- Every request keeps the fake's state valid: a client stands under its own id, and no id that the
-- counter has yet to give out is taken.
pub serve_http-IsValid :
    (now : Text) (r : Request) (s : Server) → IsValid s → IsValid (serve_http now r s).1
unfolding serve_http serve_discovery
serve_http-IsValid now r s v =
    search
      (
        if_IsValid, serve_register-IsValid, serve_list-IsValid, serve_client-IsValid,
        serve_edit-IsValid,
      )
      depth 8

-- In a valid state of the fake the id that the next registration gives out is not in use.
pub new_client-fresh :
    (now name : Text) (uris : List Text) (s : Server)
    → IsValid s
    → lookup (new_client now name uris (s.next_id + 1)).client_id s.clients ≡ none
unfolding new_client
new_client-fresh now name uris s v = v.unnumbered (s.next_id + 1) (omega arith)
