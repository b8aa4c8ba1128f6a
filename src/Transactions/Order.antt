-- ===== src/Transactions/Order.antt =====
-- typescript/src/SolanaTransaction.ts: what the order of the static accounts and the three counts of
-- the message header tell of each account.
use mathlib.Core.List.{Perm}
use mathlib.Core.List.Perm
use chancery_integration_exa.Common.{
  ℕ, zero, suc, ◌+◌, ◌-◌, ◌≤◌, ◌<◌, ◌≡◌, refl, ◌∙◌, arith, ltb, leb, Bool, true, false, not, ◌&&◌,
  ◌||◌, Bool-cases, inl, inr, some, List, [], ◌∷◌, length, get_elem?, All, All-map,
}
use chancery_integration_exa.Transactions.{
  AggregatedMeta, account_order_group, goes_before, insert_meta, order_static_account_metas,
  count_matching,
}
use chancery_integration_exa.Transactions.Message.{
  required_signatures, readonly_signed, readonly_unsigned,
}

-- Each meta goes before those behind it.
abbrev pub IsOrdered : List AggregatedMeta → Type 0
IsOrdered [] = Unit {0}
IsOrdered (meta ∷ metas) = All (λ later. goes_before meta later ≡ true) metas × IsOrdered metas

goes_before_trans :
    (a b c : AggregatedMeta)
    → goes_before a b ≡ true
    → goes_before b c ≡ true
    → goes_before a c ≡ true
unfolding goes_before
goes_before_trans a b c h k = ground arith

goes_before_total : (a b : AggregatedMeta) → goes_before a b ≡ false → goes_before b a ≡ true
unfolding goes_before
goes_before_total a b h = ground arith

insert_meta-All :
    (P : AggregatedMeta → Type 0) (meta : AggregatedMeta) (metas : List AggregatedMeta)
    → P meta
    → All P metas
    → All P (insert_meta meta metas)
unfolding insert_meta
insert_meta-All P meta [] p h = (p, tt)
insert_meta-All P meta (first ∷ metas) p (q, h) = elim (Bool-cases (goes_before meta first)) [
  | inl e ↦ rw e (p, (q, h))
  | inr e ↦ rw e (q, insert_meta-All P meta metas p h)
]

insert_meta-IsOrdered :
    (meta : AggregatedMeta) (metas : List AggregatedMeta)
    → IsOrdered metas
    → IsOrdered (insert_meta meta metas)
unfolding insert_meta
insert_meta-IsOrdered meta [] h = (tt, tt)
insert_meta-IsOrdered meta (first ∷ metas) (p, h) = elim (Bool-cases (goes_before meta first)) [
  | inl e ↦ rw e ((e, All-map (λ later k. goes_before_trans meta first later e k) metas p), (p, h))
  | inr e ↦ rw e (
    insert_meta-All (λ later. goes_before first later ≡ true) meta metas
        (goes_before_total meta first e) p,
    insert_meta-IsOrdered meta metas h,
  )
]

insert_meta_perm :
    (meta : AggregatedMeta) (metas : List AggregatedMeta)
    → Perm (insert_meta meta metas) (meta ∷ metas)
unfolding insert_meta
insert_meta_perm meta [] = Perm.refl (meta ∷ [])
insert_meta_perm meta (first ∷ metas) = elim (Bool-cases (goes_before meta first)) [
  | inl e ↦ rw e (Perm.refl (meta ∷ (first ∷ metas)))
  | inr e ↦
      rw e (Perm.trans (Perm.cons first (insert_meta_perm meta metas)) (Perm.swap meta first metas))
]

order-IsOrdered : (metas : List AggregatedMeta) → IsOrdered (order_static_account_metas metas)
unfolding order_static_account_metas
order-IsOrdered [] = tt
order-IsOrdered (meta ∷ metas) =
    insert_meta-IsOrdered meta (order_static_account_metas metas) (order-IsOrdered metas)

pub order_perm : (metas : List AggregatedMeta) → Perm (order_static_account_metas metas) metas
unfolding order_static_account_metas
order_perm [] = Perm.refl []
order_perm (meta ∷ metas) =
    Perm.trans (insert_meta_perm meta (order_static_account_metas metas))
      (Perm.cons meta (order_perm metas))

-- The metas whose group is at most a bound.
abbrev within : ℕ → AggregatedMeta → Bool
within bound meta = leb (account_order_group meta) bound

goes_before-group :
    (a b : AggregatedMeta) → goes_before a b ≡ true → account_order_group a ≤ account_order_group b
unfolding goes_before
goes_before-group a b h = ground arith

count_none :
    (bound : ℕ) (metas : List AggregatedMeta)
    → All (λ meta. bound < account_order_group meta) metas
    → count_matching (within bound) metas ≡ 0
unfolding count_matching
count_none bound [] h = refl
count_none bound (meta ∷ metas) (p, h) = ground (arith, count_none bound metas h)

beyond :
    (bound i : ℕ) (metas : List AggregatedMeta) (meta : AggregatedMeta)
    → All (λ m. bound < account_order_group m) metas
    → get_elem? metas i ≡ some meta
    → within bound meta ≡ false
beyond bound i [] meta h e = absurd (cc)
beyond bound zero (m ∷ metas) meta (p, h) e = let same : m ≡ meta = cc in rw (← same) (ground arith)
beyond bound (suc i) (m ∷ metas) meta (p, h) e = beyond bound i metas meta h e

later_beyond :
    (bound : ℕ) (meta : AggregatedMeta) (metas : List AggregatedMeta)
    → within bound meta ≡ false
    → All (λ later. goes_before meta later ≡ true) metas
    → All (λ later. bound < account_order_group later) metas
later_beyond bound meta metas high p =
    All-map (λ later k. behind later (goes_before-group meta later k)) metas p
  where
    behind :
        (later : AggregatedMeta)
        → account_order_group meta ≤ account_order_group later
        → bound < account_order_group later
    behind later k = ground arith

-- In an ordered list the metas of the lower groups come first, as many as there are.
threshold :
    (bound i : ℕ) (metas : List AggregatedMeta) (meta : AggregatedMeta)
    → IsOrdered metas
    → get_elem? metas i ≡ some meta
    → within bound meta ≡ ltb i (count_matching (within bound) metas)
unfolding count_matching
threshold bound i [] meta h e = absurd (cc)
threshold bound zero (m ∷ metas) meta (p, h) e =
    let same : m ≡ meta = cc in
    elim (Bool-cases (within bound m)) [
      | inl low ↦ rw (← same) (ground arith)
      | inr high ↦
          let none_left = count_none bound metas (later_beyond bound m metas high p) in
          rw (← same) (ground arith)
    ]
threshold bound (suc i) (m ∷ metas) meta (p, h) e =
    let inner = threshold bound i metas meta h e in
    elim (Bool-cases (within bound m)) [
      | inl low ↦ ground arith
      | inr high ↦
          let none_left = count_none bound metas (later_beyond bound m metas high p) in ground arith
    ]

-- The flags by the group.
signer_within : (meta : AggregatedMeta) → meta.is_signer ≡ within 1 meta
unfolding account_order_group
signer_within meta = elim (Bool-cases meta.is_signer) [
  | inl s ↦ elim (Bool-cases meta.is_writable) [
    | inl w ↦ rw s (rw w refl)
    | inr w ↦ rw s (rw w refl)
  ]
  | inr s ↦ elim (Bool-cases meta.is_writable) [
    | inl w ↦ rw s (rw w refl)
    | inr w ↦ rw s (rw w refl)
  ]
]

writable_within :
    (meta : AggregatedMeta)
    → meta.is_writable ≡ (within 0 meta || (not (within 1 meta) && within 2 meta))
unfolding account_order_group
writable_within meta = elim (Bool-cases meta.is_signer) [
  | inl s ↦ elim (Bool-cases meta.is_writable) [
    | inl w ↦ rw s (rw w refl)
    | inr w ↦ rw s (rw w refl)
  ]
  | inr s ↦ elim (Bool-cases meta.is_writable) [
    | inl w ↦ rw s (rw w refl)
    | inr w ↦ rw s (rw w refl)
  ]
]

-- The counts by the groups.
count_signers :
    (metas : List AggregatedMeta) → required_signatures metas ≡ count_matching (within 1) metas
unfolding required_signatures count_matching
count_signers [] = refl
count_signers (meta ∷ metas) = ground (arith, signer_within meta, count_signers metas)

count_readonly_signed :
    (metas : List AggregatedMeta)
    → readonly_signed metas + count_matching (within 0) metas ≡ count_matching (within 1) metas
unfolding readonly_signed count_matching
count_readonly_signed [] = refl
count_readonly_signed (meta ∷ metas) =
    ground (arith, signer_within meta, writable_within meta, count_readonly_signed metas)

count_readonly_unsigned :
    (metas : List AggregatedMeta)
    → readonly_unsigned metas + count_matching (within 2) metas ≡ length metas
unfolding readonly_unsigned count_matching
count_readonly_unsigned [] = refl
count_readonly_unsigned (meta ∷ metas) =
    ground (arith, signer_within meta, writable_within meta, count_readonly_unsigned metas)

-- In the order of the static accounts, an account is a signer exactly if its position is below the
-- count of required signatures, and is writable exactly if its position is among the signers but the
-- last ones that the header counts as readonly, or among the others but the last ones that it counts
-- as readonly.
pub header_layout :
    (metas : List AggregatedMeta) (i : ℕ) (meta : AggregatedMeta)
    → get_elem? (order_static_account_metas metas) i ≡ some meta
    → (meta.is_signer ≡ ltb i (required_signatures (order_static_account_metas metas)))
      × (meta.is_writable ≡ (
          ltb i (
            required_signatures (order_static_account_metas metas)
            - readonly_signed (order_static_account_metas metas))
          || (not (ltb i (required_signatures (order_static_account_metas metas)))
              && ltb i (
                  length (order_static_account_metas metas)
                  - readonly_unsigned (order_static_account_metas metas)))))
header_layout metas i meta e =
    let ordered = order_static_account_metas metas in
    let h = order-IsOrdered metas in
    let low = threshold 0 i ordered meta h e in
    let mid = threshold 1 i ordered meta h e in
    let high = threshold 2 i ordered meta h e in
    let signed : required_signatures ordered - readonly_signed ordered
        ≡ count_matching (within 0) ordered =
      omega (arith, count_signers ordered, count_readonly_signed ordered) in
    let unsigned : length ordered - readonly_unsigned ordered ≡ count_matching (within 2) ordered =
      omega (arith, count_readonly_unsigned ordered) in
    (
      rw (count_signers ordered) (signer_within meta ∙ mid),
      rw (signed, unsigned, count_signers ordered, ← low, ← mid, ← high) (writable_within meta),
    )
