-- ===== src/Tests/Copies.antt =====
-- A list of one object in a small memory, and its deep copy.
use tsidp_operator.Prelude.{ℕ, zero, suc, refl, List, [], ◌∷◌, none, some, string_eq, nat_eq, arith}
use tsidp_operator.Text.{Text, runes}
use tsidp_operator.Api.{recreate, DeletionPolicy}
use tsidp_operator.Api.Copies.{
  Ref, ClientRef, ListRef, Cell, texts, table, template, clients, Heap, copy_table, Library,
  deep_copy_list_object,
}
use tsidp_operator.Api.Copies.Isolation.{plain_shape, plain-Copies, maybe_shape, Isolated}
use tsidp_operator.Api.Copies.Clients.{
  table_shape, copy_table-Copies, IsDeep, list_shape, deep_copy_list_object-Isolated,
}
use tsidp_operator.Tests.Objects.{callback}

-- Metadata of an object is its annotations, and that of a list its resource version.
abbrev library : Library Ref Text
library = record {
  copy_meta = copy_table;
  copy_list_meta = λ l h. (l, h);
  copy_condition = λ c h. (c, h);
}

abbrev library-IsDeep : IsDeep library
library-IsDeep = record {
  meta_shape = table_shape;
  list_shape = plain_shape (λ l. l);
  meta = copy_table-Copies;
  list_meta = plain-Copies (λ l. l) (λ l. l) (λ l. refl);
  condition = plain-Copies (λ c. c) (λ c. c) (λ c. refl);
}

abbrev object : ClientRef Ref
object = record {
  type_meta = record { kind = runes "OIDCClient"; api_version = runes "v1alpha1" };
  metadata = some 4;
  spec = record {
    client_name = runes "App";
    redirect_uris = some 1;
    token_endpoint_auth_method = [];
    grant_types = none;
    response_types = none;
    scope = runes "openid";
    client_uri = [];
    logo_uri = [];
    contacts = none;
    application_type = [];
    secret_name = [];
    secret_template = some 2;
    update_policy = recreate;
    deletion_policy = DeletionPolicy.deregister;
  };
  status = record {
    client_id = runes "c1";
    secret_name = [];
    issuer = [];
    observed_generation = 0;
    conditions = none;
  };
}

abbrev nth : List (Cell Ref) → ℕ → Cell Ref
nth [] n = texts []
nth (c ∷ cs) zero = c
nth (c ∷ cs) (suc n) = nth cs n

abbrev cells : List (Cell Ref)
cells =
    clients (object ∷ [])
    ∷ texts (callback ∷ [])
    ∷ template (record { labels = some 3; annotations = none })
    ∷ table (("team", "web") ∷ [])
    ∷ table (("note", "x") ∷ [])
    ∷ []

abbrev memory : Heap Ref
memory = record { next = 5; cell = nth cells }

abbrev one : ListRef Text
one = record {
  type_meta = record { kind = runes "OIDCClientList"; api_version = runes "v1alpha1" };
  metadata = runes "7";
  items = some 0;
}

deep_copy_list_object-Isolated_example :
    Isolated
      (maybe_shape (list_shape library library-IsDeep))
      memory
      (some one)
      (deep_copy_list_object library (some one) memory)
deep_copy_list_object-Isolated_example =
    deep_copy_list_object-Isolated library library-IsDeep memory (some one)
      (ground arith, (ground arith, (ground arith, (ground arith, (ground arith, tt)))))
