-- ===== src/Kernel/AccountState/Binding.antt =====
-- What the account-state core hash commits to.
use veyora.Prelude.{◌≡◌, ◌⊎◌, inl, inr, refl, sym, ap, ◌∙◌, Bytes, codes, map, ok}
use veyora.Kernel.Evidence.{Evidence}
use veyora.Kernel.Evidence.Fields.{at, number, octets, flag, elements, elements_back}
use veyora.Kernel.Crypto.{Primitives}
use veyora.Kernel.Crypto.Commit.{Collision, commit, commit_binds}
use veyora.Kernel.AccountState.{
  DeviceCredential, DeviceEntry, MethodPolicyEntry, AccountStateCore, policy_item, device_item,
  core_evidence, encode, core_hash,
}

abbrev read_policy : Evidence → MethodPolicyEntry
read_policy v = (number (at 0 v), number (at 1 v))

abbrev read_credential : Evidence → DeviceCredential
read_credential v = record {
  method = number (at 0 v);
  credential_id = octets (at 1 v);
  public_key_coords = (octets (at 2 v), octets (at 3 v));
  sign_count = number (at 4 v);
  backup_eligible = flag (at 5 v);
  backup_state = flag (at 6 v);
}

abbrev read_device : Evidence → DeviceEntry
read_device v = record {
  device_id = octets (at 0 v);
  status = number (at 1 v);
  credential = read_credential (at 2 v);
  device_wrap_public = octets (at 3 v);
  permission_mask = number (at 4 v);
  revocation_epoch = number (at 5 v);
  enrolled_revision = number (at 6 v);
}

abbrev read_core : Evidence → AccountStateCore
read_core v = record {
  deployment_id = octets (at 2 v);
  vault_id = octets (at 3 v);
  security_version = number (at 4 v);
  prior_state_root = octets (at 5 v);
  epoch = number (at 6 v);
  manifest_key_id = octets (at 7 v);
  manifest_public_key = octets (at 8 v);
  recovery_generation = number (at 9 v);
  recovery_id = octets (at 10 v);
  recovery_public_key = octets (at 11 v);
  unlock_generation = number (at 12 v);
  unlock_hash = octets (at 13 v);
  auth_policy = number (at 14 v);
  method_policy = map read_policy (elements (at 15 v));
  active_writer = number (at 16 v);
  active_suite = number (at 17 v);
  minimum_reader = number (at 18 v);
  minimum_suite = number (at 19 v);
  migration_generation = number (at 20 v);
  server_key_id = octets (at 21 v);
  server_key_hash = octets (at 22 v);
  origin = octets (at 23 v);
  rp_id = octets (at 24 v);
  psl_hash = octets (at 25 v);
  receipt_key_id = octets (at 26 v);
  receipt_public_key = octets (at 27 v);
  device_entries = map read_device (elements (at 28 v));
  device_wrap_set_root = octets (at 29 v);
}

read_core-core_evidence : (c : AccountStateCore) → read_core (core_evidence c) ≡ c
read_core-core_evidence c = λ i. record c {
  method_policy = elements_back policy_item read_policy (λ x. refl) c.method_policy i;
  device_entries = elements_back device_item read_device (λ x. refl) c.device_entries i;
}

core_commit :
    (p : Primitives) (c : AccountStateCore)
    → core_hash p c ≡ commit p (codes "pm-v1/account-state-core") (core_evidence c)
unfolding core_hash encode commit
core_commit p c = refl

-- One core hash stands for one account state, every field and every device entry included, or it
-- exhibits a collision of SHA-256.
pub core_hash_binds :
    (p : Primitives) (a b : AccountStateCore) (h : Bytes)
    → core_hash p a ≡ ok h
    → core_hash p b ≡ ok h
    → (a ≡ b) ⊎ Collision p.sha256
core_hash_binds p a b h x y =
    elim (commit_binds p _ _ _ _ h (sym (core_commit p a) ∙ x) (sym (core_commit p b) ∙ y)) [
      | inl (d, e) ↦
          inl (sym (read_core-core_evidence a) ∙ ap read_core e ∙ read_core-core_evidence b)
      | inr found ↦ inr found
    ]
