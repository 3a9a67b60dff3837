-- ===== src/Validator/Keys.antt =====
-- The keys `port/protocol` of internal/stack/validator.go.
use text.Mathlib.TextLemmas.{append_inj, length-append}
use Prim.Native.String.{count, ◌++◌}
use container_provisioner_k.Base.Text.{itoa, format_int, to_upper}
use container_provisioner_k.Base.Text.Numbers.{parse_digits, parse_digits-itoa}
use container_provisioner_k.Base.{
  ◌+◌, sym, ap, ◌∙◌, ℕ, String, Bool, true, false, ◌≡◌, ◌⊎◌, inl, inr, refl, arith, string_eq,
  eq_iff,
}
use container_provisioner_k.Base.Int.{ℤ, pos, negsuc, neg_part}
use container_provisioner_k.Validator.{out_of_range, port_key}

-- A protocol as it stands in a key.
abbrev pub IsProtocol : String → Type 0
IsProtocol p = (p ≡ "TCP") ⊎ (p ≡ "UDP")

-- Texts that end in texts of the same length.
same_ends : (s t a b : String) → count a ≡ count b → (s ++ a) ≡ (t ++ b) → (s ≡ t) × (a ≡ b)
same_ends s t a b same h =
    let total : count s + count a ≡ count t + count b =
      sym (length-append s a) ∙ ap count h ∙ length-append t b in
    append_inj h (omega arith)

ends_differ {ℓ} : {A : Type ℓ} → Path String "/TCP" "/UDP" → A
ends_differ h = let same : Path Bool false true = (eq_iff "/TCP" "/UDP").1 h in absurd (cc)

protocol_ends :
    (p q : String)
    → IsProtocol p
    → IsProtocol q
    → (count ("/" ++ to_upper p) ≡ count ("/" ++ to_upper q))
      × (("/" ++ to_upper p) ≡ ("/" ++ to_upper q) → p ≡ q)
unfolding to_upper
protocol_ends p q (inl a) (inl b) = (rw (a, b) refl, λ h. a ∙ sym b)
protocol_ends p q (inr a) (inr b) = (rw (a, b) refl, λ h. a ∙ sym b)
protocol_ends p q (inl a) (inr b) = (rw (a, b) refl, λ h. ends_differ (rw (a, b) at h))
protocol_ends p q (inr a) (inl b) = (rw (a, b) refl, λ h. ends_differ (sym (rw (a, b) at h)))

itoa_inj : (m n : ℕ) → itoa m ≡ itoa n → m ≡ n
itoa_inj m n h =
    let same = sym (parse_digits-itoa m) ∙ ap (parse_digits 0) h ∙ parse_digits-itoa n in cc

-- A key determines the port and the protocol.
pub port_key_inj :
    (a b : ℤ) (p q : String)
    → out_of_range a ≡ false
    → neg_part b ≡ 0
    → IsProtocol p
    → IsProtocol q
    → port_key a p ≡ port_key b q
    → (a ≡ b) × (p ≡ q)
unfolding port_key format_int
port_key_inj (negsuc m) b p q a_range b_range vp vq h = absurd (ground arith)
port_key_inj (pos m) (negsuc n) p q a_range b_range vp vq h = absurd (ground arith)
port_key_inj (pos m) (pos n) p q a_range b_range vp vq h =
    let (ends, protocol) = protocol_ends p q vp vq in
    let (port, rest) = same_ends (itoa m) (itoa n) _ _ ends h in
    (ap pos (itoa_inj m n port), protocol rest)
