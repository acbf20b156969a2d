-- ===== src/Api/Copies/Clients.antt =====
-- The generated deep copies isolate the objects that they are given.
use tsidp_operator.Prelude.{
  ◌≡◌, refl, sym, subst, ap, ◌∙◌, List, [], ◌∷◌, Option, none, some, String, string_eq, ◌==◌,
  if◌then◌else◌,
}
use tsidp_operator.Prelude.Map.{Map, lookup, lookup-insert}
use tsidp_operator.Text.{Text}
use tsidp_operator.Api.{Condition}
use tsidp_operator.Api.Copies.{
  Ref, TemplateRef, SpecRef, StatusRef, ClientRef, ListRef, texts, table, template, conditions,
  clients, as_texts, as_table, as_template, as_conditions, as_clients, Heap, refill, copy_texts,
  copy_table, copy_template_into, copy_template, copy_spec_into, copy_each, deep_copy, Library,
  copy_conditions, copy_status_into, copy_client_into, copy_items, copy_list_into,
  deep_copy_list_object,
}
use tsidp_operator.Api.Copies.Isolation.{
  Shape, IsPlaced, Copies, plain_shape, plain-Copies, pair_shape, both-Copies, each_shape,
  copy_each-Copies, ref_shape, copy_behind-Copies, struct_shape, struct-Copies, maybe_shape,
  deep_copy-Copies, Isolated, Copied-Isolated,
}

lookup-refill : (m : Map String String) (k : String) → lookup k (refill m) ≡ lookup k m
unfolding refill lookup
lookup-refill [] k = refl
lookup-refill ((j, v) ∷ m) k =
    lookup-insert k j v (refill m) ∙ ap (λ o. if k == j then some v else o) (lookup-refill m k)

-- A map is read as what it has under each key.
abbrev pub entries : Map String String → String → Option String
entries m k = lookup k m

abbrev pub spec_parts : SpecRef → Ref × (Ref × (Ref × (Ref × Ref)))
spec_parts s =
    (s.redirect_uris, (s.grant_types, (s.response_types, (s.contacts, s.secret_template))))

-- What is not a reference.
abbrev pub spec_rest : SpecRef → SpecRef
spec_rest s = record s {
  redirect_uris = none;
  grant_types = none;
  response_types = none;
  contacts = none;
  secret_template = none;
}

module _ {O : Type 0} where
  abbrev pub texts_shape : Shape O Ref
  texts_shape = ref_shape (plain_shape (λ (l : List Text). l)) as_texts

  copy_texts-Copies : Copies texts_shape copy_texts
  copy_texts-Copies =
      copy_behind-Copies (plain_shape (λ l. l)) as_texts texts [] (λ l h. (l, h)) (λ l. refl)
        (plain-Copies (λ l. l) (λ l. l) (λ l. refl))

  abbrev pub table_shape : Shape O Ref
  table_shape = ref_shape (plain_shape entries) as_table

  pub copy_table-Copies : Copies table_shape copy_table
  unfolding copy_table
  copy_table-Copies =
      copy_behind-Copies (plain_shape entries) as_table table [] (λ m h. (refill m, h)) (λ m. refl)
        (plain-Copies entries refill (λ m i k. lookup-refill m k i))

  abbrev pub template_shape : Shape O TemplateRef
  template_shape =
      struct_shape (pair_shape table_shape table_shape) (λ t. tt) (λ t. (t.labels, t.annotations))

  copy_template_into-Copies : Copies template_shape copy_template_into
  unfolding copy_template_into
  copy_template_into-Copies =
      struct-Copies (pair_shape table_shape table_shape) _ _ copy_template_into _ (λ t h. refl)
        (λ t h. refl)
        (both-Copies table_shape table_shape copy_table copy_table copy_table-Copies
          copy_table-Copies)

  abbrev pub pointer_shape : Shape O Ref
  pointer_shape = ref_shape template_shape as_template

  copy_template-Copies : Copies pointer_shape copy_template
  unfolding copy_template
  copy_template-Copies =
      copy_behind-Copies template_shape as_template template
        (record { labels = none; annotations = none }) copy_template_into (λ t. refl)
        copy_template_into-Copies

  abbrev pub spec_shape : Shape O SpecRef
  spec_shape =
      struct_shape
        (pair_shape texts_shape
          (pair_shape texts_shape (pair_shape texts_shape (pair_shape texts_shape pointer_shape))))
        spec_rest spec_parts

  copy_spec_into-Copies : Copies spec_shape copy_spec_into
  unfolding copy_spec_into
  copy_spec_into-Copies =
      struct-Copies _ spec_rest spec_parts copy_spec_into _ (λ s h. refl) (λ s h. refl)
        (both-Copies texts_shape _ copy_texts _ copy_texts-Copies (
          both-Copies texts_shape _ copy_texts _ copy_texts-Copies (
            both-Copies texts_shape _ copy_texts _ copy_texts-Copies (
              both-Copies texts_shape pointer_shape copy_texts copy_template copy_texts-Copies
                copy_template-Copies))))

  abbrev pub status_shape : Shape O StatusRef
  status_shape =
      struct_shape (ref_shape (each_shape (plain_shape (λ (c : Condition). c))) as_conditions)
        (λ (s : StatusRef). record s { conditions = none }) (λ s. s.conditions)

-- The library's deep copies copy.
pub record IsDeep {O L : Type 0} (K : Library O L) : Type 1 where
  pub meta_shape : Shape O O
  pub list_shape : Shape O L
  pub meta : Copies meta_shape K.copy_meta
  pub list_meta : Copies list_shape K.copy_list_meta
  -- A condition has no references.
  pub condition : Copies (plain_shape (λ c. c)) K.copy_condition

module _ {O L : Type 0} (K : Library O L) (D : IsDeep K) where
  copy_status_into-Copies : Copies status_shape (copy_status_into K)
  unfolding copy_status_into copy_conditions
  copy_status_into-Copies =
      struct-Copies _ _ _ (copy_status_into K) (copy_conditions K) (λ s h. refl) (λ s h. refl)
        (copy_behind-Copies (each_shape (plain_shape (λ c. c))) as_conditions conditions []
          (copy_each K.copy_condition) (λ l. refl)
          (copy_each-Copies (plain_shape (λ c. c)) K.copy_condition D.condition))

  abbrev pub client_shape : Shape O (ClientRef O)
  client_shape =
      struct_shape (pair_shape D.meta_shape (pair_shape spec_shape status_shape))
        (λ (c : ClientRef O). c.type_meta) (λ c. (c.metadata, (c.spec, c.status)))

  copy_client_into-Copies : Copies client_shape (copy_client_into K)
  unfolding copy_client_into
  copy_client_into-Copies =
      struct-Copies _ _ _ (copy_client_into K) _ (λ c h. refl) (λ c h. refl)
        (both-Copies D.meta_shape _ K.copy_meta _ D.meta (
          both-Copies spec_shape status_shape copy_spec_into (copy_status_into K)
            copy_spec_into-Copies copy_status_into-Copies))

  abbrev pub list_shape : Shape O (ListRef L)
  list_shape =
      struct_shape (pair_shape D.list_shape (ref_shape (each_shape client_shape) as_clients))
        (λ (l : ListRef L). l.type_meta) (λ l. (l.metadata, l.items))

  copy_list_into-Copies : Copies list_shape (copy_list_into K)
  unfolding copy_list_into copy_items
  copy_list_into-Copies =
      struct-Copies _ _ _ (copy_list_into K) _ (λ l h. refl) (λ l h. refl)
        (both-Copies D.list_shape _ K.copy_list_meta (copy_items K) D.list_meta (
          copy_behind-Copies (each_shape client_shape) as_clients clients []
            (copy_each (copy_client_into K)) (λ l. refl)
            (copy_each-Copies client_shape (copy_client_into K) copy_client_into-Copies)))

  object-copied :
      (o : Option (ListRef L)) (h : Heap O)
      → deep_copy_list_object K o h ≡ deep_copy (copy_list_into K) o h
  unfolding deep_copy_list_object
  object-copied none h = refl
  object-copied (some l) h = refl

  -- With deep copies of apimachinery that copy: DeepCopyObject of a list of objects that stands in
  -- the memory, or of nil, gives a list, or nil, that reads as the original, a map as what is
  -- under each of its keys, and whatever is then written at an address of the copy, the original
  -- reads as before, and whatever is written at an address of the original, the copy does.
  pub deep_copy_list_object-Isolated :
      (h : Heap O) (o : Option (ListRef L))
      → IsPlaced (maybe_shape list_shape) h o
      → Isolated (maybe_shape list_shape) h o (deep_copy_list_object K o h)
  deep_copy_list_object-Isolated h o p =
      subst (Isolated (maybe_shape list_shape) h o) (sym (object-copied o h)) (
        Copied-Isolated (maybe_shape list_shape) h o _ p
          (deep_copy-Copies list_shape (copy_list_into K) copy_list_into-Copies h o p))
