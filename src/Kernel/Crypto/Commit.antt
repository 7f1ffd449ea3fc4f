-- ===== src/Kernel/Crypto/Commit.antt =====
-- `SHA-256(preimage(domain, encode_evidence(value)))`, the construction of every hash that the
-- account state, a session or an authorization commits to.
use veyora.Prelude.{
  ◌≡◌, ◌≢◌, ◌⊎◌, inl, inr, ap, ◌∙◌, Bytes, bytes_eq, bytes_eq_iff, [], ◌++◌, Result, ok, ◌>>=◌,
  >>=-eq-ok, arith, Bool-cases,
}
use veyora.Kernel.Error.{KernelError}
use veyora.Kernel.Evidence.{Evidence, encode_evidence}
use veyora.Kernel.Evidence.Injective.{encode_evidence-cancel}
use veyora.Kernel.Crypto.{Primitives, domain_preimage}
use veyora.Kernel.Crypto.Preimage.{domain_preimage-injective}

-- Two different inputs of one hash.
abbrev pub Collision : (Bytes → Bytes) → Type 0
Collision hash = (a b : Bytes) × (a ≢ b) × (hash a ≡ hash b)

pub same_or_Collision :
    (hash : Bytes → Bytes) (a b : Bytes) → hash a ≡ hash b → (a ≡ b) ⊎ Collision hash
same_or_Collision hash a b h = elim (Bool-cases (bytes_eq a b)) [
  | inl e ↦ inl ((bytes_eq_iff a b).0 e)
  | inr e ↦ inr (a, b, (λ q. cc (e, (bytes_eq_iff a b).1 q)), h)
]

module _ (p : Primitives) where
  -- The hash of a body that is already encoded.
  unfoldable pub commit_body : Bytes → Bytes → Result KernelError Bytes
  commit_body domain body = domain_preimage domain body >>= λ preimage. ok (p.sha256 preimage)

  unfoldable pub commit : Bytes → Evidence → Result KernelError Bytes
  unfolding commit_body
  commit domain value = encode_evidence value >>= λ body. commit_body domain body

  pub commit_body_binds :
      (d e b c h : Bytes)
      → commit_body d b ≡ ok h
      → commit_body e c ≡ ok h
      → ((d ≡ e) × (b ≡ c)) ⊎ Collision p.sha256
  unfolding commit_body
  commit_body_binds d e b c h x y =
      let (m, hm, sm) = >>=-eq-ok (domain_preimage d b) _ x in
      let (n, hn, sn) = >>=-eq-ok (domain_preimage e c) _ y in
      elim (same_or_Collision p.sha256 m n (ground arith)) [
        | inl same ↦ inl (domain_preimage-injective d e b c n (hm ∙ ap ok same) hn)
        | inr found ↦ inr found
      ]

  -- One hash stands for one domain and one value, or it exhibits a collision of SHA-256.
  pub commit_binds :
      (d e : Bytes) (v w : Evidence) (h : Bytes)
      → commit d v ≡ ok h
      → commit e w ≡ ok h
      → ((d ≡ e) × (v ≡ w)) ⊎ Collision p.sha256
  unfolding commit
  commit_binds d e v w h x y =
      let (b, hb, xb) = >>=-eq-ok (encode_evidence v) _ x in
      let (c, hc, yc) = >>=-eq-ok (encode_evidence w) _ y in
      elim (commit_body_binds d e b c h xb yc) [
        | inl (de, bc) ↦
            inl
              (de, (encode_evidence-cancel v w b c [] [] hb hc (ap (λ (t : Bytes). t ++ []) bc)).0)
        | inr found ↦ inr found
      ]
