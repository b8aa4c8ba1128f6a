-- ===== src/Tokens/Extensions/Laid.antt =====
-- typescript/src/SplToken.ts: where the extensions behind a mint lie.
use chancery_integration_exa.Common.{
  ℕ, zero, suc, ◌+◌, ◌-◌, ◌≤◌, ◌<◌, ◌≡◌, ◌≢◌, ◌==◌, refl, sym, ap, ◌∙◌, ==_iff, ok-injective, take,
  arith, ltb, if◌then◌else◌, Bool, true, false, List, [], ◌∷◌, ◌++◌, length, drop, Result, ok,
  >>=-eq-ok, inl, inr, ◌⊎◌, ◌&&◌, guard-eq-ok, trailing_tlv,
}
use mathlib.Core.List.{append-nil, append_assoc}
use mathlib.Core.Path.{subst}
use chancery_integration_exa.Wire.{decode_unsigned_integer}
use chancery_integration_exa.Tokens.{slice_exact, read_unsigned_little_endian}
use chancery_integration_exa.Base58.{every_zero}
use chancery_integration_exa.Tokens.Extensions.{
  Extension, Scanned, note_extension, take_extension, scan_extensions, check_trailing,
}

pub take_extension_cursor :
    (input : List ℕ) (extension_type byte_length : ℕ) (s next : Scanned)
    → take_extension input extension_type byte_length s ≡ ok next
    → (next.cursor ≡ s.cursor + 4 + byte_length) × (next.cursor ≤ length input)
unfolding take_extension slice_exact
take_extension_cursor input extension_type byte_length s next e =
    let (value, sliced, more) = >>=-eq-ok (slice_exact input (s.cursor + 4) byte_length) _ e in
    let (noted, _, shown) = >>=-eq-ok (note_extension extension_type value s) _ more in
    (ground (arith, shown), ground (arith, shown, sliced))

pub if-eq-ok {ℓ} :
    {A : Type ℓ} (b : Bool) (x y : Result A) {a : A}
    → (if b then x else y) ≡ ok a
    → ((b ≡ true) × (x ≡ ok a)) ⊎ ((b ≡ false) × (y ≡ ok a))
if-eq-ok true x y h = inl (refl, h)
if-eq-ok false x y h = inr (refl, h)

pub check_trailing_keeps :
    (input : List ℕ) (s final : Scanned) → check_trailing input s ≡ ok final → s ≡ final
unfolding check_trailing
check_trailing_keeps input s final e =
    elim (if-eq-ok (ltb s.cursor (length input) && ltb (length input - s.cursor) 4) _ (ok s) e) [
      | inl (_, inner) ↦
          let (_, same) =
            guard-eq-ok (every_zero (drop s.cursor input)) trailing_tlv (λ _. ok s) inner in
          cc same
      | inr (_, same) ↦ cc same
    ]

-- The number that two little-endian bytes of the input stand for.
abbrev pub short_at : List ℕ → ℕ → ℕ
short_at input offset = decode_unsigned_integer (take 2 (drop offset input))

-- The extensions lie end to end in the input, from a start to an end within it: each has its type,
-- which is not 0, its length, and as many bytes as its value.
abbrev pub IsLaid : List ℕ → ℕ → List Extension → ℕ → Type 0
IsLaid input start [] end = (start ≡ end) × (end ≤ length input)
IsLaid input start (x ∷ xs) end =
    (x.extension_type ≡ short_at input start)
    × (x.extension_type ≢ 0)
    × (x.byte_length ≡ short_at input (start + 2))
    × (x.value ≡ take x.byte_length (drop (start + 4) input))
    × (start + 4 + x.byte_length ≤ length input)
    × IsLaid input (start + 4 + x.byte_length) xs end

-- The extensions stop where no type and length fit any more, or in front of a type 0.
abbrev pub IsStop : List ℕ → ℕ → Type 0
IsStop input end = (length input < end + 4) ⊎ (short_at input end ≡ 0)

note_extension_keeps :
    (extension_type : ℕ) (value : List ℕ) (s next : Scanned)
    → note_extension extension_type value s ≡ ok next
    → next.extensions ≡ s.extensions
unfolding note_extension
note_extension_keeps extension_type value s next e = ground arith

slice_exact_eq :
    (input : List ℕ) (offset byte_length : ℕ) (bytes : List ℕ)
    → slice_exact input offset byte_length ≡ ok bytes
    → (bytes ≡ take byte_length (drop offset input)) × (offset + byte_length ≤ length input)
unfolding slice_exact
slice_exact_eq input offset byte_length bytes e =
    elim (if-eq-ok (ltb (length input) (offset + byte_length)) _ _ e) [
      | inl (_, refused) ↦ absurd (cc)
      | inr (inside, same) ↦ (sym (ok-injective same), ground (arith, inside))
    ]

short_at_eq :
    (input : List ℕ) (offset n : ℕ)
    → read_unsigned_little_endian input offset 2 ≡ ok n
    → n ≡ short_at input offset
unfolding read_unsigned_little_endian
short_at_eq input offset n e =
    let (bytes, sliced, shown) = >>=-eq-ok (slice_exact input offset 2) _ e in
    sym (ok-injective shown)
    ∙ ap (λ (t : List ℕ). decode_unsigned_integer t) (slice_exact_eq input offset 2 bytes sliced).0

take_extension_lem :
    (input : List ℕ) (extension_type byte_length : ℕ) (s next : Scanned)
    → take_extension input extension_type byte_length s ≡ ok next
    → (x : Extension) × (next.extensions ≡ s.extensions ++ (x ∷ []))
      × (x.extension_type ≡ extension_type)
      × (x.byte_length ≡ byte_length)
      × (x.value ≡ take byte_length (drop (s.cursor + 4) input))
unfolding take_extension
take_extension_lem input extension_type byte_length s next e =
    let (value, sliced, more) = >>=-eq-ok (slice_exact input (s.cursor + 4) byte_length) _ e in
    let (noted, noting, shown) = >>=-eq-ok (note_extension extension_type value s) _ more in
    let taken : Extension = record {
      extension_type = extension_type;
      byte_length = byte_length;
      value = value;
    } in
    let made : next.extensions ≡ s.extensions ++ (taken ∷ []) = cc shown in
    (taken, made, refl, refl, (slice_exact_eq input (s.cursor + 4) byte_length value sliced).0)

-- What a run of the loop has collected lies end to end between its cursors, up to a stop.
pub scan_extensions-IsLaid :
    (fuel : ℕ) (input : List ℕ) (s final : Scanned)
    → s.cursor ≤ length input
    → scan_extensions fuel input s ≡ ok final
    → (found : List Extension) × (final.extensions ≡ s.extensions ++ found)
      × IsLaid input s.cursor found final.cursor
      × IsStop input final.cursor
unfolding scan_extensions
scan_extensions-IsLaid zero input s final inside e = absurd (cc)
scan_extensions-IsLaid (suc fuel) input s final inside e =
    elim (if-eq-ok (ltb (length input) (s.cursor + 4)) (ok s) _ e) [
      | inl (short, same) ↦ stays same (inl (ground (arith, short)))
      | inr (_, going) ↦
          let (extension_type, e1, more) =
            >>=-eq-ok (read_unsigned_little_endian input s.cursor 2) _ going in
          let (byte_length, e2, more') =
            >>=-eq-ok (read_unsigned_little_endian input (s.cursor + 2) 2) _ more in
          let read = short_at_eq input s.cursor extension_type e1 in
          let read' = short_at_eq input (s.cursor + 2) byte_length e2 in
          elim (if-eq-ok (extension_type == 0) (ok s) _ more') [
            | inl (ended, same) ↦ stays same (inr (sym read ∙ (==_iff extension_type 0).0 ended))
            | inr (other, turn) ↦
                let (next, taken, rest) =
                  >>=-eq-ok (take_extension input extension_type byte_length s) _ turn in
                let (moved, low) =
                  take_extension_cursor input extension_type byte_length s next taken in
                let (x, made, same_type, same_length, same_value) =
                  take_extension_lem input extension_type byte_length s next taken in
                let (found, all, laid, stop) =
                  scan_extensions-IsLaid fuel input next final low rest in
                let reached : next.cursor ≡ s.cursor + 4 + x.byte_length =
                  moved ∙ ap (λ (t : ℕ). s.cursor + 4 + t) (sym same_length) in
                (
                  x ∷ found,
                  all
                      ∙ (ap (λ (t : List Extension). t ++ found) made
                          ∙ append_assoc s.extensions (x ∷ []) found),
                  (
                    same_type ∙ read,
                    ground (arith, same_type, other),
                    same_length ∙ read',
                    rw same_length same_value,
                    subst (λ (t : ℕ). t ≤ length input) reached low,
                    subst (λ (t : ℕ). IsLaid input t found final.cursor) reached laid,
                  ),
                  stop,
                )
          ]
    ]
  where
    stays :
        Result.ok s ≡ ok final
        → IsStop input s.cursor
        → (found : List Extension) × (final.extensions ≡ s.extensions ++ found)
          × IsLaid input s.cursor found final.cursor
          × IsStop input final.cursor
    stays same stop =
        let stopped : s ≡ final = cc same in
        rw (← stopped) ([], sym (append-nil s.extensions), (refl, inside), stop)
