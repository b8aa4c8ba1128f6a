-- ===== src/Tokens/Extensions/Ended.antt =====
-- typescript/src/SplToken.ts: the errors of one turn of the loop over the extensions.
use chancery_integration_exa.Common.{
  Error, guard, stack_exhausted, leb, not, fee_basis_points, fee_config_size, duplicate_extension,
  hook_size, ℕ, ◌+◌, ◌≡◌, ◌≢◌, ◌==◌, refl, arith, if◌then◌else◌, Bool, true, false, List, length,
  Result, ok, err, ◌>>=◌,
}
use chancery_integration_exa.Tokens.{
  decode_optional_nonzero_public_key, decode_transfer_fee, decode_transfer_fee_config, slice_exact,
  read_unsigned_little_endian,
}
use chancery_integration_exa.Tokens.Extensions.{Scanned, note_extension, take_extension, is_some}

-- A computation that has not run out of turns.
abbrev pub HasEnded {ℓ} : {A : Type ℓ} → Result A → Type ℓ
HasEnded r = r ≢ err stack_exhausted

pub >>=-HasEnded {ℓ κ} :
    {A : Type ℓ} {B : Type κ} (m : Result A) (f : A → Result B)
    → HasEnded m
    → ((a : A) → m ≡ ok a → HasEnded (f a))
    → HasEnded (m >>= f)
>>=-HasEnded (ok a) f first more = more a refl
>>=-HasEnded (err e) f first more = λ h. first (cc)

slice_exact-HasEnded :
    (input : List ℕ) (offset byte_length : ℕ) → HasEnded (slice_exact input offset byte_length)
unfolding slice_exact
slice_exact-HasEnded input offset byte_length = ground arith

pub read_unsigned-HasEnded :
    (input : List ℕ) (offset byte_length : ℕ)
    → HasEnded (read_unsigned_little_endian input offset byte_length)
unfolding read_unsigned_little_endian
read_unsigned-HasEnded input offset byte_length =
    >>=-HasEnded _ _ (slice_exact-HasEnded input offset byte_length) (λ bs e h. absurd (cc))

guard-HasEnded : (b : Bool) (e : Error) → e ≢ stack_exhausted → HasEnded (guard b e)
guard-HasEnded true e different = λ h. absurd (cc)
guard-HasEnded false e different = λ h. different (cc h)

decode_optional-HasEnded :
    (input : List ℕ) (offset : ℕ) → HasEnded (decode_optional_nonzero_public_key input offset)
unfolding decode_optional_nonzero_public_key
decode_optional-HasEnded input offset =
    >>=-HasEnded _ _ (slice_exact-HasEnded input offset 32) (λ bs e h. absurd (cc))

decode_transfer_fee-HasEnded :
    (value : List ℕ) (offset : ℕ) → HasEnded (decode_transfer_fee value offset)
unfolding decode_transfer_fee
decode_transfer_fee-HasEnded value offset =
    >>=-HasEnded _ _ (read_unsigned-HasEnded value (offset + 16) 2) (λ points e1.
      >>=-HasEnded _ _ (guard-HasEnded (leb points 10000) fee_basis_points (λ h. absurd (cc)))
        (λ u e2. >>=-HasEnded _ _ (read_unsigned-HasEnded value offset 8) (λ epoch e3.
          >>=-HasEnded _ _ (read_unsigned-HasEnded value (offset + 8) 8)
            (λ maximum e4 h. absurd (cc)))))

decode_transfer_fee_config-HasEnded : (value : List ℕ) → HasEnded (decode_transfer_fee_config value)
unfolding decode_transfer_fee_config
decode_transfer_fee_config-HasEnded value =
    >>=-HasEnded _ _ (guard-HasEnded (length value == 108) fee_config_size (λ h. absurd (cc)))
      (λ u e1. >>=-HasEnded _ _ (decode_optional-HasEnded value 0) (λ a e2.
        >>=-HasEnded _ _ (decode_optional-HasEnded value 32) (λ b e3.
          >>=-HasEnded _ _ (read_unsigned-HasEnded value 64 8) (λ c e4.
            >>=-HasEnded _ _ (decode_transfer_fee-HasEnded value 72) (λ older e5.
              >>=-HasEnded _ _ (decode_transfer_fee-HasEnded value 90)
                (λ newer e6 h. absurd (cc)))))))

pub if-HasEnded {ℓ} :
    {A : Type ℓ} (b : Bool) (x y : Result A)
    → HasEnded x
    → HasEnded y
    → HasEnded (if b then x else y)
if-HasEnded true x y hx hy = hx
if-HasEnded false x y hx hy = hy

note_extension-HasEnded :
    (extension_type : ℕ) (value : List ℕ) (s : Scanned)
    → HasEnded (note_extension extension_type value s)
unfolding note_extension
note_extension-HasEnded extension_type value s =
    if-HasEnded (extension_type == 1) _ _
      (>>=-HasEnded _ _
        (guard-HasEnded (not (is_some s.transfer_fee_config)) duplicate_extension
          (λ h. absurd (cc)))
        (λ u e.
          >>=-HasEnded _ _ (decode_transfer_fee_config-HasEnded value)
            (λ config e' h. absurd (cc))))
      (if-HasEnded (extension_type == 14) _ _
        (>>=-HasEnded _ _ (guard-HasEnded (length value == 64) hook_size (λ h. absurd (cc)))
          (λ u e. >>=-HasEnded _ _ (decode_optional-HasEnded value 32) (λ hook e' h. absurd (cc))))
        (if-HasEnded (extension_type == 16) _ _ (λ h. absurd (cc)) (λ h. absurd (cc))))

-- Nothing of a turn but the loop itself runs out of turns.
pub take_extension-HasEnded :
    (input : List ℕ) (extension_type byte_length : ℕ) (s : Scanned)
    → HasEnded (take_extension input extension_type byte_length s)
unfolding take_extension
take_extension-HasEnded input extension_type byte_length s =
    >>=-HasEnded _ _ (slice_exact-HasEnded input (s.cursor + 4) byte_length) (λ value e1.
      >>=-HasEnded _ _ (note_extension-HasEnded extension_type value s) (λ next e2 h. absurd (cc)))
