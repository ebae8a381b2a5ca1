-- ===== src/Proxy/Headers/Pack.antt =====
-- What a response has once the pack is stamped (frontend/lib/security-headers.ts).
use pfv.Common.{
  ◌≡◌, refl, sym, ap, ◌∙◌, ◌↔◌, arith, true, false, some, [], ◌∷◌, if◌then◌else◌, All, Bool-cases,
  inl, inr,
}
use pfv.Common.Text.{Text, text_eq, text_eq_iff, text_eq_refl}
use pfv.Proxy.Headers.{
  lower_name, same_name, Headers, get_header, set_header, set_headers, Build, security_headers,
  apply_security_headers,
}

pub same_name_iff : (a b : Text) → (same_name a b ≡ true) ↔ (lower_name a ≡ lower_name b)
unfolding same_name
same_name_iff a b = text_eq_iff (lower_name a) (lower_name b)

same_name_as : (a b c : Text) → same_name a b ≡ true → same_name a c ≡ same_name b c
unfolding same_name
same_name_as a b c h = ap (λ x. text_eq x (lower_name c)) ((same_name_iff a b).0 h)

same_name_refl : (a : Text) → same_name a a ≡ true
unfolding same_name
same_name_refl a = text_eq_refl (lower_name a)

clash :
    (k other name : Text)
    → same_name k other ≡ false
    → same_name other name ≡ true
    → same_name k name ≡ false
clash k other name n s = elim (Bool-cases (same_name k name)) [
  | inr apart ↦ apart
  | inl same ↦
      let met : same_name k other ≡ true =
        (same_name_iff k other).1
          ((same_name_iff k name).0 same ∙ sym ((same_name_iff other name).0 s)) in
      absurd (cc)
]

pub get_header-set_header :
    (name other value : Text) (headers : Headers)
    → get_header name (set_header other value headers)
      ≡ (if same_name other name then some value else get_header name headers)
unfolding get_header set_header
get_header-set_header name other value [] = refl
get_header-set_header name other value ((k, v) ∷ headers) = elim (Bool-cases (same_name k other)) [
  | inl same ↦ rw same (ground (arith, same_name_as k other name same))
  | inr apart ↦
      rw apart
        (ground (arith, get_header-set_header name other value headers, clash k other name apart))
]

-- No two names of the pack are the same.
abbrev pub Distinct : Headers → Type 0
Distinct [] = Unit {0}
Distinct ((k, v) ∷ pack) = All (λ p. same_name p.0 k ≡ false) pack × Distinct pack

get_header-set_headers_other :
    (name : Text) (pack headers : Headers)
    → All (λ p. same_name p.0 name ≡ false) pack
    → get_header name (set_headers pack headers) ≡ get_header name headers
unfolding set_headers
get_header-set_headers_other name [] headers h = refl
get_header-set_headers_other name ((k, v) ∷ pack) headers (o, h) =
    get_header-set_headers_other name pack (set_header k v headers) h
    ∙ get_header-set_header name k v headers
    ∙ rw o refl

set_headers-All :
    (pack headers : Headers)
    → Distinct pack
    → All (λ p. get_header p.0 (set_headers pack headers) ≡ some p.1) pack
unfolding set_headers
set_headers-All [] headers d = tt
set_headers-All ((k, v) ∷ pack) headers (o, d) = (
  get_header-set_headers_other k pack (set_header k v headers) o
      ∙ get_header-set_header k k v headers
      ∙ rw (same_name_refl k) refl,
  set_headers-All pack (set_header k v headers) d,
)

security_headers-Distinct : (build : Build) (nonce : Text) → Distinct (security_headers build nonce)
unfolding same_name
security_headers-Distinct build nonce = ground arith

pub apply_security_headers-All :
    (build : Build) (nonce : Text) (headers : Headers)
    → All
        (λ p. get_header p.0 (apply_security_headers build nonce headers) ≡ some p.1)
        (security_headers build nonce)
unfolding apply_security_headers
apply_security_headers-All build nonce headers =
    set_headers-All (security_headers build nonce) headers (security_headers-Distinct build nonce)

-- A header of another name is as it was.
pub get_header-apply_security_headers_other :
    (build : Build) (nonce name : Text) (headers : Headers)
    → All (λ p. same_name p.0 name ≡ false) (security_headers build nonce)
    → get_header name (apply_security_headers build nonce headers) ≡ get_header name headers
unfolding apply_security_headers
get_header-apply_security_headers_other build nonce name headers h =
    get_header-set_headers_other name (security_headers build nonce) headers h
