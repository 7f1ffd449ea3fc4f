-- ===== src/Kernel/Tests.antt =====
-- The kernel's properties at concrete inputs, over toy primitives: a hash that keeps the first 32 bytes,
-- and a cipher that appends a tag of zeros.
use veyora.Prelude.{
  ℕ, ◌-◌, ◌≡◌, ◌≤◌, ◌⊎◌, refl, sym, ap, ◌∙◌, Bytes, codes, true, false, Option, none, some, List,
  [], ◌∷◌, ◌++◌, Result, ok, err, length, take, length-take, take-append, length-append, arith,
}
use veyora.Kernel.Error.{KernelError, invalid_secret_text}
use veyora.Kernel.Secret.{is_utf8, encode_opaque_secret}
use veyora.Kernel.Evidence.{
  Evidence, bool, uint, bytes, array, items, encode_evidence, encode_into, write_head,
}
use veyora.Kernel.Evidence.Injective.{encode_evidence-cancel}
use veyora.Kernel.Crypto.{Primitives, IsAead, replicate, domain_preimage}
use veyora.Kernel.Crypto.Commit.{Collision, commit_body}
use veyora.Kernel.AccountState.{AccountStateCore, encode, core_hash}
use veyora.Kernel.AccountState.Binding.{core_hash_binds}
use veyora.Kernel.Manifest.{
  Leaf, root_from_leaves, chunks, chunk_bodies, reduce, reduce_loop, next_level,
}
use veyora.Kernel.Manifest.Chunks.{hashes}
use veyora.Kernel.Manifest.Root.{root_from_leaves_binds}
use veyora.Kernel.Generator.{password, running, push_byte, generate_loop, generate_password}
use veyora.Kernel.Generator.Output.{from_alphabet, generate_password_output}
use veyora.Kernel.Generator.Sampling.{generate_password_returns, generate_password_endless}

abbrev toy : Primitives
toy = record {
  sha256 = λ b. take 32 (b ++ replicate 32 0);
  hkdf = λ salt key info n. some (take n (key ++ replicate n 0));
  encrypt = λ key nonce aad msg. some (msg ++ replicate 16 0);
  decrypt = λ key nonce aad c. some (take (length c - 16) c);
}

toy_wide : (b : Bytes) → length (toy.sha256 b) ≡ 32
toy_wide b = omega (arith, length-take 32 (b ++ replicate 32 0), length-append b (replicate 32 0))

some_same : (a b : Bytes) → ◌≡◌ {A = Option Bytes} (some a) (some b) → a ≡ b
some_same a b h = ground arith

untag : (msg : Bytes) → take (length (msg ++ replicate 16 0) - 16) (msg ++ replicate 16 0) ≡ msg
untag msg =
    let size : length (msg ++ replicate 16 0) - 16 ≡ length msg =
      omega (arith, length-append msg (replicate 16 0)) in
    ap (λ n. take n (msg ++ replicate 16 0)) size ∙ take-append msg (replicate 16 0)

toy-IsAead : IsAead toy
toy-IsAead = record {
  decrypts = λ key nonce aad msg c h.
      ap (λ (t : Bytes). some (take (length t - 16) t))
        (sym (some_same (msg ++ replicate 16 0) c h))
      ∙ ap some (untag msg);
  tagged = λ key nonce aad msg c h.
      ap (λ (t : Bytes). length t) (sym (some_same (msg ++ replicate 16 0) c h))
      ∙ length-append msg (replicate 16 0);
}

abbrev ok_of {ℓ} : {A : Type ℓ} → A → Result KernelError A → A
ok_of d (ok a) = a
ok_of d (err e) = d

abbrev sample : Evidence
sample = array (items (uint 500 ∷ bytes (1 ∷ 2 ∷ []) ∷ bool true ∷ []))

sample_encoded :
    encode_evidence sample ≡ ok (0x83 ∷ 0x19 ∷ 0x01 ∷ 0xf4 ∷ 0x42 ∷ 0x01 ∷ 0x02 ∷ 0xf5 ∷ [])
unfolding encode_evidence encode_into write_head
sample_encoded = refl

encode_evidence-cancel_example : (sample ≡ sample) × (codes "x" ≡ codes "x")
encode_evidence-cancel_example =
    encode_evidence-cancel sample sample _ _ (codes "x") (codes "x") sample_encoded sample_encoded
      refl

abbrev account : ℕ → AccountStateCore
account epoch = record {
  deployment_id = codes "deployment";
  vault_id = codes "vault";
  security_version = 1;
  prior_state_root = codes "prior";
  epoch = epoch;
  manifest_key_id = codes "mk";
  manifest_public_key = codes "mp";
  recovery_generation = 1;
  recovery_id = codes "r";
  recovery_public_key = codes "rp";
  unlock_generation = 1;
  unlock_hash = codes "u";
  auth_policy = 0;
  method_policy = (2, 1) ∷ [];
  active_writer = 1;
  active_suite = 1;
  minimum_reader = 1;
  minimum_suite = 1;
  migration_generation = 0;
  server_key_id = codes "s";
  server_key_hash = codes "sh";
  origin = codes "https://veyora";
  rp_id = codes "veyora";
  psl_hash = codes "psl";
  receipt_key_id = codes "k";
  receipt_public_key = codes "kp";
  device_entries =
      record {
        device_id = codes "device-1";
        status = 1;
        credential = record {
          method = 2;
          credential_id = codes "c";
          public_key_coords = (codes "x", codes "y");
          sign_count = 3;
          backup_eligible = true;
          backup_state = false;
        };
        device_wrap_public = codes "w";
        permission_mask = 7;
        revocation_epoch = 0;
        enrolled_revision = 1;
      }
      ∷ [];
  device_wrap_set_root = codes "root";
}

core_hash_binds_example : (account 1 ≡ account 2) ⊎ Collision toy.sha256
unfolding core_hash encode commit_body domain_preimage encode_evidence encode_into write_head
core_hash_binds_example =
    core_hash_binds toy (account 1) (account 2) (ok_of [] (core_hash toy (account 1))) refl refl

abbrev leaves : List Leaf
leaves =
    (codes "id-1", codes "hash-1")
    ∷ (codes "id-2", codes "hash-2")
    ∷ (codes "id-3", codes "hash-3")
    ∷ []

abbrev root_of : Option (Result KernelError Bytes) → Bytes
root_of none = []
root_of (some r) = ok_of [] r

root_from_leaves_binds_example : (hashes leaves ≡ hashes leaves) ⊎ Collision toy.sha256
unfolding root_from_leaves chunks chunk_bodies reduce reduce_loop next_level encode_evidence
    encode_into write_head
root_from_leaves_binds_example =
    root_from_leaves_binds toy toy_wide leaves leaves 2 2 (root_of (root_from_leaves toy leaves 2))
      refl refl

-- The n-th draw is n, modulo 256.
abbrev counting : ℕ → Result KernelError ℕ
counting n = ok n

generate_password_output_example :
    (length (codes "abcdabcd") ≡ 8)
    × (8 ≤ 8)
    × (8 ≤ 128)
    × (from_alphabet (codes "abcd") (codes "abcdabcd") ≡ true)
unfolding generate_password generate_loop push_byte
generate_password_output_example =
    generate_password_output counting (codes "abcd") 8 8 (codes "abcdabcd") refl refl

generate_password_returns_example :
    (cs : List ℕ) × (generate_password counting (codes "abcd") 8 8 ≡ password cs)
generate_password_returns_example =
    generate_password_returns counting (codes "abcd") 8 8 (omega arith) (omega arith) (omega arith)
      (omega arith) (λ j. (j, refl)) (omega arith)

generate_password_endless_example : generate_password counting (replicate 300 97) 8 1_000 ≡ running
generate_password_endless_example =
    generate_password_endless counting (replicate 300 97) 8 1_000 (omega arith) (omega arith)
      (omega arith) (omega arith) (λ j. (j, refl))

-- A surrogate is no character, and neither is a long form of a short one.
surrogate_refused : encode_opaque_secret (0xed ∷ 0xa0 ∷ 0x80 ∷ []) ≡ err invalid_secret_text
unfolding encode_opaque_secret is_utf8
surrogate_refused = refl

long_form_refused : encode_opaque_secret (0xc0 ∷ 0x80 ∷ []) ≡ err invalid_secret_text
unfolding encode_opaque_secret is_utf8
long_form_refused = refl

euro_kept : encode_opaque_secret (0xe2 ∷ 0x82 ∷ 0xac ∷ []) ≡ ok (0xe2 ∷ 0x82 ∷ 0xac ∷ [])
unfolding encode_opaque_secret is_utf8
euro_kept = refl
