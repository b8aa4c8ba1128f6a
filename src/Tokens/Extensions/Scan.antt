-- ===== src/Tokens/Extensions/Scan.antt =====
-- typescript/src/SplToken.ts: the runs of the loop over the extensions behind a mint.
use chancery_integration_exa.Common.{
  stack_exhausted, ℕ, zero, suc, ◌+◌, ◌<◌, ◌≡◌, ◌≢◌, ◌==◌, refl, sym, arith, ltb, if◌then◌else◌,
  Bool, true, false, List, length, Result, ok, err, ◌>>=◌, >>=-eq-ok, inl, inr, guard-eq-ok, none,
  some, mint_truncated, mint_account_type,
}
use mathlib.Core.Path.{subst}
use chancery_integration_exa.Tokens.{read_unsigned_little_endian, byte_at}
use chancery_integration_exa.Tokens.Extensions.Laid.{
  take_extension_cursor, if-eq-ok, check_trailing_keeps, IsLaid, IsStop, scan_extensions-IsLaid,
}
use chancery_integration_exa.Tokens.Extensions.Ended.{
  HasEnded, >>=-HasEnded, if-HasEnded, read_unsigned-HasEnded, take_extension-HasEnded,
}
use chancery_integration_exa.Tokens.Extensions.{
  Extension, Scanned, take_extension, scan_extensions, at_start, check_trailing,
  decode_token2022_mint_extensions,
}

>>=-cong {ℓ κ} :
    {A : Type ℓ} {B : Type κ} (m : Result A) (f g : A → Result B)
    → ((a : A) → m ≡ ok a → f a ≡ g a)
    → (m >>= f) ≡ (m >>= g)
>>=-cong (ok a) f g h = h a refl
>>=-cong (err e) f g h = refl

if-cong {ℓ} :
    {A : Type ℓ} (b : Bool) (x y z : A)
    → (b ≡ false → y ≡ z)
    → (if b then x else y) ≡ (if b then x else z)
if-cong true x y z h = refl
if-cong false x y z h = h refl

scan_extensions_more :
    (fuel : ℕ) (input : List ℕ) (s : Scanned)
    → length input < s.cursor + fuel
    → scan_extensions (suc (suc fuel)) input s ≡ scan_extensions (suc fuel) input s
unfolding scan_extensions
scan_extensions_more zero input s enough = ground arith
scan_extensions_more (suc fuel) input s enough =
    if-cong (ltb (length input) (s.cursor + 4)) _ _ _ (λ inside.
      >>=-cong (read_unsigned_little_endian input s.cursor 2) _ _ (λ extension_type read.
        >>=-cong (read_unsigned_little_endian input (s.cursor + 2) 2) _ _ (λ byte_length read'.
          if-cong (extension_type == 0) _ _ _ (λ different.
            >>=-cong (take_extension input extension_type byte_length s) _ _ (λ next taken.
              scan_extensions_more fuel input next (
                omega (
                  arith,
                  take_extension_cursor input extension_type byte_length s next taken,
                  enough,
                )))))))

scan_extensions-HasEnded :
    (fuel : ℕ) (input : List ℕ) (s : Scanned)
    → length input < s.cursor + fuel
    → HasEnded (scan_extensions (suc fuel) input s)
unfolding scan_extensions
scan_extensions-HasEnded zero input s enough = ground arith
scan_extensions-HasEnded (suc fuel) input s enough =
    if-HasEnded (ltb (length input) (s.cursor + 4)) _ _ (λ h. absurd (cc))
      (>>=-HasEnded _ _ (read_unsigned-HasEnded input s.cursor 2) (λ extension_type read.
        >>=-HasEnded _ _ (read_unsigned-HasEnded input (s.cursor + 2) 2) (λ byte_length read'.
          if-HasEnded (extension_type == 0) _ _ (λ h. absurd (cc))
            (>>=-HasEnded _ _ (take_extension-HasEnded input extension_type byte_length s)
              (λ next taken. scan_extensions-HasEnded fuel input next (
                omega (
                  arith,
                  take_extension_cursor input extension_type byte_length s next taken,
                  enough,
                )))))))

-- With more turns than bytes that are left, the loop never runs out of turns, whatever it returns or
-- throws, and a further turn changes nothing.
pub scan_extensions_fuel :
    (fuel : ℕ) (input : List ℕ) (s : Scanned)
    → length input < s.cursor + fuel
    → (scan_extensions (suc fuel) input s ≢ err stack_exhausted)
      × (scan_extensions (suc (suc fuel)) input s ≡ scan_extensions (suc fuel) input s)
scan_extensions_fuel fuel input s enough =
    (scan_extensions-HasEnded fuel input s enough, scan_extensions_more fuel input s enough)

-- In a mint that has an account type, the extensions that are collected lie end to end from byte 166
-- to the cursor, within the data, each with its type, its length and its value as the bytes hold
-- them. They stop where less than 4 bytes are left, or in front of a type 0.
pub mint_extensions_extent :
    (input : List ℕ) (account_type : ℕ) (s : Scanned)
    → decode_token2022_mint_extensions input ≡ ok (some account_type, s)
    → IsLaid input 166 s.extensions s.cursor × IsStop input s.cursor
unfolding decode_token2022_mint_extensions
mint_extensions_extent input account_type s e =
    elim (if-eq-ok (length input == 82) (ok (none, at_start 82)) _ e) [
      | inl (_, absent) ↦ absurd (cc)
      | inr (_, present) ↦
          let (long, more) = guard-eq-ok (ltb 165 (length input)) mint_truncated _ present in
          let (_, more') = guard-eq-ok (byte_at input 165 == 1) mint_account_type _ more in
          let (checked, checking, shown) =
            >>=-eq-ok (scan_extensions (length input) input (at_start 166) >>= check_trailing input)
              _ more' in
          let (scanned, scanning, trailing) =
            >>=-eq-ok (scan_extensions (length input) input (at_start 166)) _ checking in
          let kept : scanned ≡ s =
            cc (check_trailing_keeps input scanned checked trailing, shown) in
          let (found, all, laid, stop) =
            scan_extensions-IsLaid (length input) input (at_start 166) scanned
              (ground (arith, long)) scanning in
          rw (← kept)
            (subst (λ (t : List Extension). IsLaid input 166 t scanned.cursor) (sym all) laid, stop)
    ]
