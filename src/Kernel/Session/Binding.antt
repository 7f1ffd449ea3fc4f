-- ===== src/Kernel/Session/Binding.antt =====
-- What a session result commits to, and when it is derived.
use veyora.Prelude.{
  ℕ, ◌+◌, ◌^◌, ◌≤◌, ◌<◌, ◌≡◌, ◌⊎◌, inl, inr, sym, ap, ◌∙◌, Bytes, codes, ok, err, >>=-eq-ok, arith,
}
use veyora.Kernel.Error.{limit_exceeded}
use veyora.Kernel.Evidence.{Evidence, encode_evidence}
use veyora.Kernel.Evidence.Canonical.{encode_evidence-canonical}
use veyora.Kernel.Evidence.Fields.{at, number}
use veyora.Kernel.Crypto.{Primitives, domain_preimage}
use veyora.Kernel.Crypto.Commit.{Collision, commit, commit_body, commit_binds}
use veyora.Kernel.Session.{
  SessionPolicy, SessionResult, checked_add_u64, policy_evidence, result_evidence, body_and_hash,
  derive_session_result,
}

checked : (a b c : ℕ) → checked_add_u64 a b ≡ ok c → (c ≡ a + b) × (a + b < 2 ^ 64)
checked a b c h = ground arith

-- The hash that a result carries, as a commitment to one evidence value.
derived :
    (p : Primitives) (policy : SessionPolicy) (issued_at : ℕ) (r : SessionResult)
    → derive_session_result p policy issued_at ≡ ok r
    → (hash : Bytes) × (commit p (codes "pm-v1/session-policy-result") (
          result_evidence policy hash issued_at
            (issued_at + policy.absolute_ttl_seconds)
            (issued_at + policy.idle_ttl_seconds))
        ≡ ok r.result_hash)
unfolding derive_session_result commit commit_body body_and_hash
derived p policy issued_at r h =
    let (pb, hp, h1) = >>=-eq-ok (body_and_hash p policy) _ h in
    let (ae, ha, h2) = >>=-eq-ok (checked_add_u64 issued_at policy.absolute_ttl_seconds) _ h1 in
    let (ie, hi, h3) = >>=-eq-ok (checked_add_u64 issued_at policy.idle_ttl_seconds) _ h2 in
    (
      pb.1,
      ground (
        arith,
        checked issued_at policy.absolute_ttl_seconds ae,
        checked issued_at policy.idle_ttl_seconds ie,
      ),
    )

abbrev policy_at : Evidence → SessionPolicy
policy_at v = record {
  granted_mask = number (at 2 v);
  absolute_ttl_seconds = number (at 3 v);
  idle_ttl_seconds = number (at 4 v);
  max_concurrent_sessions = number (at 5 v);
}

evidence_policy :
    (a b : SessionPolicy) (x y : Bytes) (s t i j k l : ℕ)
    → result_evidence a x s i j ≡ result_evidence b y t k l
    → (a ≡ b) × (s ≡ t)
evidence_policy a b x y s t i j k l h = (ap policy_at h, ap (λ (v : Evidence). number (at 6 v)) h)

-- A session's result hash stands for one policy and one time of issue, or it exhibits a collision of
-- SHA-256.
pub derive_session_result_binds :
    (p : Primitives) (a b : SessionPolicy) (s t : ℕ) (q r : SessionResult)
    → derive_session_result p a s ≡ ok q
    → derive_session_result p b t ≡ ok r
    → q.result_hash ≡ r.result_hash
    → ((a ≡ b) × (s ≡ t)) ⊎ Collision p.sha256
derive_session_result_binds p a b s t q r hq hr same =
    let (x, cx) = derived p a s q hq in
    let (y, cy) = derived p b t r hr in
    elim (commit_binds p _ _ _ _ _ cx (cy ∙ ap ok (sym same))) [
      | inl (d, e) ↦ inl (evidence_policy a b x y s t _ _ _ _ e)
      | inr found ↦ inr found
    ]

policy_hashed :
    (p : Primitives) (policy : SessionPolicy) (b : Bytes × Bytes)
    → body_and_hash p policy ≡ ok b
    → commit p (codes "pm-v1/session-policy") (policy_evidence policy) ≡ ok b.1
unfolding body_and_hash commit commit_body
policy_hashed p policy b h =
    let (body, hb, h1) = >>=-eq-ok (encode_evidence (policy_evidence policy)) _ h in
    let (pre, hp, h2) = >>=-eq-ok (domain_preimage (codes "pm-v1/session-policy") body) _ h1 in
    ground arith

-- A session is refused, with the limit error, whenever one of its two expiry times passes the u64
-- range.
pub derive_session_result_overflow :
    (p : Primitives) (policy : SessionPolicy) (issued_at : ℕ)
    → (2 ^ 64 ≤ issued_at + policy.absolute_ttl_seconds)
      ⊎ (2 ^ 64 ≤ issued_at + policy.idle_ttl_seconds)
    → derive_session_result p policy issued_at ≡ err limit_exceeded
unfolding derive_session_result body_and_hash domain_preimage
derive_session_result_overflow p policy issued_at over =
    ground (arith, encode_evidence-canonical (policy_evidence policy))
