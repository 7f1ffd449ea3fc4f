-- ===== src/Kernel/Limits.antt =====
-- packages/security-kernel/crates/kernel-core/src/limits.rs.
use veyora.Prelude.{ℕ, ◌<◌, ◌≤◌, ◌≡◌, ◌||◌, Result, ok, err, arith, ltb, ◌==◌, if◌then◌else◌}
use veyora.Kernel.Error.{KernelError, limit_exceeded}

pub record LimitProfile : Type 0 where
  pub max_document_bytes : ℕ
  pub max_collection_items : ℕ
  pub max_byte_string_bytes : ℕ
  pub max_nesting_depth : ℕ
  pub max_secret_text_bytes : ℕ

abbrev pub max_opaque_text_bytes : ℕ
max_opaque_text_bytes = 1024

abbrev pub v1 : LimitProfile
v1 = record {
  max_document_bytes = 4_259_840;
  max_collection_items = 4_096;
  max_byte_string_bytes = 4_194_304;
  max_nesting_depth = 32;
  max_secret_text_bytes = max_opaque_text_bytes;
}

-- `LimitProfile::new`: every limit is positive and within the v1 profile.
pub new_profile : ℕ → ℕ → ℕ → ℕ → ℕ → Result KernelError LimitProfile
new_profile document collection byte_string depth secret =
    if document == 0
      || collection == 0
      || byte_string == 0
      || depth == 0
      || secret == 0
      || ltb v1.max_document_bytes document
      || ltb v1.max_collection_items collection
      || ltb v1.max_byte_string_bytes byte_string
      || ltb v1.max_nesting_depth depth
      || ltb v1.max_secret_text_bytes secret
    then err limit_exceeded
    else ok (record {
      max_document_bytes = document;
      max_collection_items = collection;
      max_byte_string_bytes = byte_string;
      max_nesting_depth = depth;
      max_secret_text_bytes = secret;
    })

pub record IsWithin (p q : LimitProfile) : Type 0 where
  pub document : p.max_document_bytes ≤ q.max_document_bytes
  pub collection : p.max_collection_items ≤ q.max_collection_items
  pub byte_string : p.max_byte_string_bytes ≤ q.max_byte_string_bytes
  pub depth : p.max_nesting_depth ≤ q.max_nesting_depth
  pub secret : p.max_secret_text_bytes ≤ q.max_secret_text_bytes

-- A profile that the constructor accepts can only tighten the v1 profile, and leaves no limit zero.
pub new_profile-IsWithin :
    (document collection byte_string depth secret : ℕ) (p : LimitProfile)
    → new_profile document collection byte_string depth secret ≡ ok p
    → IsWithin p v1 × (0 < p.max_document_bytes) × (0 < p.max_nesting_depth)
unfolding new_profile
new_profile-IsWithin document collection byte_string depth secret p h = ground arith
