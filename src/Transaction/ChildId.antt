-- ===== src/Transaction/ChildId.antt =====
-- The identity of the operations that a managed write begins at its destinations
-- (transaction/mod.rs, `ManagedOperationScope::deterministic_child`). The bytes of texts and ids, and
-- the hash `Uuid::new_v5` in the namespace of child operations, are parameters.
pub mod Injective
mod Examples
use s.Prelude.{List, String, [], length, suc, zero, ℕ, ◌%◌, ◌++◌, ◌/◌, ◌∷◌, nat_eq, string_eq}
use s.Transaction.Operation.{ManagedOperationScope, ObjectDestination, Uuid}
use s.Transaction.Json.{field}

pub data ManagedChildRole : Type 0 where
  primary replica repair : ManagedChildRole

-- `ManagedChildRole::as_str`
unfoldable pub role_text : ManagedChildRole → String
role_text primary = "primary"
role_text replica = "replica"
role_text repair = "repair"

-- The last `width` bytes of a number, the highest first, before some bytes.
unfoldable pub be_bytes_onto : ℕ → ℕ → List ℕ → List ℕ
be_bytes_onto zero n rest = rest
be_bytes_onto (suc width) n rest = be_bytes_onto width (n / 256) (n % 256 ∷ rest)

-- The fields, each behind its length in eight bytes.
unfoldable pub framed : List (List ℕ) → List ℕ
unfolding be_bytes_onto
framed [] = []
framed (part ∷ parts) = be_bytes_onto 8 (length part) (part ++ framed parts)

-- What the hash and the encodings are.
pub record IdEncoding : Type 0 where
  pub uuid_bytes : Uuid → List ℕ
  pub text_bytes : String → List ℕ
  pub new_v5 : List ℕ → Uuid

unfoldable pub identity_parts :
    IdEncoding → Uuid → ObjectDestination → ManagedChildRole → List (List ℕ)
unfolding role_text
identity_parts encoding parent destination role =
    encoding.uuid_bytes parent
    ∷ encoding.text_bytes destination.backend_id
    ∷ encoding.text_bytes destination.bucket
    ∷ encoding.text_bytes destination.logical_key
    ∷ encoding.text_bytes destination.physical_key
    ∷ encoding.text_bytes (role_text role)
    ∷ []

unfoldable pub child_identity : IdEncoding → Uuid → ObjectDestination → ManagedChildRole → List ℕ
unfolding framed identity_parts
child_identity encoding parent destination role =
    framed (identity_parts encoding parent destination role)

unfoldable pub deterministic_child :
    IdEncoding → Uuid → String → ℕ → ObjectDestination → ManagedChildRole → ManagedOperationScope
unfolding child_identity
deterministic_child encoding parent tenant_id namespace_epoch destination role = record {
  operation_id = encoding.new_v5 (child_identity encoding parent destination role);
  tenant_id = tenant_id;
  namespace_epoch = namespace_epoch;
}
