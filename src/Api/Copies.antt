-- ===== src/Api/Copies.antt =====
-- The deep copies of api/v1alpha1/zz_generated.deepcopy.go, over a memory of slices, maps and pointers.
pub mod Isolation
pub mod Clients
use tsidp_operator.Prelude.{
  ℕ, ◌+◌, Bool, List, [], ◌∷◌, Option, none, some, String, string_eq, nat_eq, ◌==◌, if◌then◌else◌,
}
use tsidp_operator.Prelude.Map.{Map, insert}
use tsidp_operator.Text.{Text}
use tsidp_operator.Api.{Condition, UpdatePolicy, DeletionPolicy}

-- A slice, a map or a pointer: nil, or the address of what it stands for. A slice is a whole array.
abbrev pub Ref : Type 0
Ref = Option ℕ

-- `SecretTemplate`
pub record TemplateRef : Type 0 where
  pub labels : Ref
  pub annotations : Ref

-- `OIDCClientSpec`
pub record SpecRef : Type 0 where
  pub client_name : Text
  pub redirect_uris : Ref
  pub token_endpoint_auth_method : Text
  pub grant_types : Ref
  pub response_types : Ref
  pub scope : Text
  pub client_uri : Text
  pub logo_uri : Text
  pub contacts : Ref
  pub application_type : Text
  pub secret_name : Text
  pub secret_template : Ref
  pub update_policy : UpdatePolicy
  pub deletion_policy : DeletionPolicy

-- `OIDCClientStatus`
pub record StatusRef : Type 0 where
  pub client_id : Text
  pub secret_name : Text
  pub issuer : Text
  pub observed_generation : ℕ
  pub conditions : Ref

-- `metav1.TypeMeta`
pub record TypeMeta : Type 0 where
  pub kind : Text
  pub api_version : Text

-- `OIDCClient`; the type of the object's metadata is the library's.
pub record ClientRef (O : Type 0) : Type 0 where
  pub type_meta : TypeMeta
  pub metadata : O
  pub spec : SpecRef
  pub status : StatusRef

-- `OIDCClientList`
pub record ListRef (L : Type 0) : Type 0 where
  pub type_meta : TypeMeta
  pub metadata : L
  pub items : Ref

-- What stands at an address.
pub data Cell (O : Type 0) : Type 0 where
  texts : List Text → Cell O
  table : Map String String → Cell O
  template : TemplateRef → Cell O
  conditions : List Condition → Cell O
  clients : List (ClientRef O) → Cell O

module _ {O : Type 0} where
  abbrev pub as_texts : Cell O → List Text
  as_texts (texts l) = l
  as_texts _ = []

  abbrev pub as_table : Cell O → Map String String
  as_table (table m) = m
  as_table _ = []

  abbrev pub as_template : Cell O → TemplateRef
  as_template (template t) = t
  as_template _ = record { labels = none; annotations = none }

  abbrev pub as_conditions : Cell O → List Condition
  as_conditions (conditions l) = l
  as_conditions _ = []

  abbrev pub as_clients : Cell O → List (ClientRef O)
  as_clients (clients l) = l
  as_clients _ = []

-- The memory: what stands at each address, and the first address that is free.
pub record Heap (O : Type 0) : Type 0 where
  pub next : ℕ
  pub cell : ℕ → Cell O

-- The loop that sets each key of a new map.
unfoldable pub refill : Map String String → Map String String
refill [] = []
refill ((k, v) ∷ m) = insert k v (refill m)

module _ {O : Type 0} where
  abbrev pub write : ℕ → Cell O → Heap O → Heap O
  write a c h = record h { cell = λ x. if x == a then c else h.cell x }

  -- `make` and `new`
  abbrev pub alloc : Cell O → Heap O → Heap O
  alloc c h = record { next = h.next + 1; cell = λ x. if x == h.next then c else h.cell x }

  -- A reference that is not nil: `make` or `new`, and what fills the new array, map or struct from
  -- the old one.
  abbrev pub copy_behind :
      {A : Type 0}
      → (Cell O → A)
      → (A → Cell O)
      → A
      → (A → Heap O → A × Heap O)
      → Ref
      → Heap O
      → Ref × Heap O
  copy_behind from to zero into none h = (none, h)
  copy_behind from to zero into (some a) h =
      let r = h.next in
      let (y, h') = into (from (h.cell a)) (alloc (to zero) h) in (some r, write r (to y) h')

  -- `make([]string, n)` and `copy`
  abbrev pub copy_texts : Ref → Heap O → Ref × Heap O
  copy_texts = copy_behind as_texts texts [] (λ l h. (l, h))

  -- `make(map[string]string, n)` and the loop over the old map
  unfoldable pub copy_table : Ref → Heap O → Ref × Heap O
  unfolding refill
  copy_table = copy_behind as_table table [] (λ m h. (refill m, h))

  -- `DeepCopyInto` of a SecretTemplate
  unfoldable pub copy_template_into : TemplateRef → Heap O → TemplateRef × Heap O
  copy_template_into t h =
      let (ls, h₁) = copy_table t.labels h in
      let (ns, h₂) = copy_table t.annotations h₁ in (record t { labels = ls; annotations = ns }, h₂)

  -- `new(SecretTemplate)` and its `DeepCopyInto`
  unfoldable pub copy_template : Ref → Heap O → Ref × Heap O
  unfolding copy_template_into
  copy_template =
      copy_behind as_template template (record { labels = none; annotations = none })
        copy_template_into

  -- `DeepCopyInto` of an OIDCClientSpec
  unfoldable pub copy_spec_into : SpecRef → Heap O → SpecRef × Heap O
  unfolding copy_template
  copy_spec_into s h =
      let (us, h₁) = copy_texts s.redirect_uris h in
      let (gs, h₂) = copy_texts s.grant_types h₁ in
      let (rs, h₃) = copy_texts s.response_types h₂ in
      let (cs, h₄) = copy_texts s.contacts h₃ in
      let (t, h₅) = copy_template s.secret_template h₄ in
      (
        record s {
          redirect_uris = us;
          grant_types = gs;
          response_types = rs;
          contacts = cs;
          secret_template = t;
        },
        h₅,
      )

-- The deep copies of apimachinery that the generated ones call.
pub record Library (O L : Type 0) : Type 0 where
  pub copy_meta : O → Heap O → O × Heap O
  pub copy_list_meta : L → Heap O → L × Heap O
  pub copy_condition : Condition → Heap O → Condition × Heap O

-- The loop over the elements of a slice, each copied into its place of the new one, which is stored
-- when the loop ends.
unfoldable pub copy_each :
    {O A : Type 0} → (A → Heap O → A × Heap O) → List A → Heap O → List A × Heap O
copy_each copy [] h = ([], h)
copy_each copy (x ∷ xs) h =
    let (y, h₁) = copy x h in let (ys, h₂) = copy_each copy xs h₁ in (y ∷ ys, h₂)

-- `DeepCopy`: nil for nil, and a new value otherwise.
abbrev pub deep_copy :
    {O A : Type 0} → (A → Heap O → A × Heap O) → Option A → Heap O → Option A × Heap O
deep_copy into none h = (none, h)
deep_copy into (some x) h = let (y, h') = into x h in (some y, h')

module _ {O : Type 0} where
  -- `DeepCopy` of a SecretTemplate and of an OIDCClientSpec
  abbrev pub deep_copy_template : Option TemplateRef → Heap O → Option TemplateRef × Heap O
  deep_copy_template = deep_copy copy_template_into

  abbrev pub deep_copy_spec : Option SpecRef → Heap O → Option SpecRef × Heap O
  deep_copy_spec = deep_copy copy_spec_into

module _ {O L : Type 0} (K : Library O L) where
  -- `make([]v1.Condition, n)` and the loop
  unfoldable pub copy_conditions : Ref → Heap O → Ref × Heap O
  unfolding copy_each
  copy_conditions = copy_behind as_conditions conditions [] (copy_each K.copy_condition)

  -- `DeepCopyInto` of an OIDCClientStatus
  unfoldable pub copy_status_into : StatusRef → Heap O → StatusRef × Heap O
  unfolding copy_conditions
  copy_status_into s h =
      let (cs, h') = copy_conditions s.conditions h in (record s { conditions = cs }, h')

  -- `DeepCopyInto` of an OIDCClient
  unfoldable pub copy_client_into : ClientRef O → Heap O → ClientRef O × Heap O
  unfolding copy_spec_into copy_status_into
  copy_client_into c h =
      let (m, h₁) = K.copy_meta c.metadata h in
      let (sp, h₂) = copy_spec_into c.spec h₁ in
      let (st, h₃) = copy_status_into c.status h₂ in
      (record c { metadata = m; spec = sp; status = st }, h₃)

  -- `make([]OIDCClient, n)` and the loop
  unfoldable pub copy_items : Ref → Heap O → Ref × Heap O
  unfolding copy_client_into copy_each
  copy_items = copy_behind as_clients clients [] (copy_each copy_client_into)

  -- `DeepCopyInto` of an OIDCClientList
  unfoldable pub copy_list_into : ListRef L → Heap O → ListRef L × Heap O
  unfolding copy_items
  copy_list_into l h =
      let (m, h₁) = K.copy_list_meta l.metadata h in
      let (is, h₂) = copy_items l.items h₁ in (record l { metadata = m; items = is }, h₂)

  -- `DeepCopy` of an OIDCClientStatus, an OIDCClient and a list
  abbrev pub deep_copy_status : Option StatusRef → Heap O → Option StatusRef × Heap O
  deep_copy_status = deep_copy copy_status_into

  abbrev pub deep_copy_client : Option (ClientRef O) → Heap O → Option (ClientRef O) × Heap O
  deep_copy_client = deep_copy copy_client_into

  abbrev pub deep_copy_list : Option (ListRef L) → Heap O → Option (ListRef L) × Heap O
  deep_copy_list = deep_copy copy_list_into

  -- `DeepCopyObject` of an OIDCClient and of a list
  unfoldable pub deep_copy_client_object :
      Option (ClientRef O) → Heap O → Option (ClientRef O) × Heap O
  deep_copy_client_object o h =
      let (c, h') = deep_copy_client o h in elim c [ some x ↦ (some x, h') | none ↦ (none, h') ]

  unfoldable pub deep_copy_list_object : Option (ListRef L) → Heap O → Option (ListRef L) × Heap O
  deep_copy_list_object o h =
      let (c, h') = deep_copy_list o h in elim c [ some x ↦ (some x, h') | none ↦ (none, h') ]
