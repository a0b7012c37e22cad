-- ===== src/Ws/Mask.antt =====
-- `ws_unmask_payload`. A word or a vector that `memcpy` fills is the list of its bytes, and its XOR
-- with the broadcast mask works byte by byte, from byte 0 of the mask; the loops, their bounds and
-- their order are the source's. Which instructions a build has is a parameter.
use Prim.Native.Nat.{bit_xor}
use socketley.Prelude.{
  ℕ, zero, suc, ◌+◌, ◌%◌, ◌≤◌, ◌≡◌, refl, ◌∙◌, ap, true, false, [], ◌∷◌, ◌++◌, Bytes, arith, length,
  take, drop, leb, ◌==◌, leb→le, Bool-cases, inl, inr, if◌then◌else◌,
}

-- The four bytes of the mask, in memory order.
pub record Mask : Type 0 where
  pub m0 : ℕ
  pub m1 : ℕ
  pub m2 : ℕ
  pub m3 : ℕ

-- `mask_bytes[i & 3]`
unfoldable pub mask_byte : Mask → ℕ → ℕ
mask_byte m i =
    let k = i % 4 in if k == 0 then m.m0 else if k == 1 then m.m1 else if k == 2 then m.m2 else m.m3

-- The loop byte by byte, from index `i`.
unfoldable pub bytewise : Mask → ℕ → Bytes → Bytes
bytewise m i [] = []
bytewise m i (b ∷ p) = bit_xor b (mask_byte m i) ∷ bytewise m (i + 1) p

-- `for (; i + width <= len; i += width)`, then `next`. A round takes `width` bytes, so the length is
-- fuel enough.
unfoldable pub blocks : ℕ → Mask → (ℕ → Bytes → Bytes) → ℕ → ℕ → Bytes → Bytes
blocks width m next zero i p = next i p
blocks width m next (suc fuel) i p = elim (leb width (length p)) [
  | true ↦ bytewise m 0 (take width p) ++ blocks width m next fuel (i + width) (drop width p)
  | false ↦ next i p
]

-- `if (i + 4 <= len)`
unfoldable pub tail4 : Mask → (ℕ → Bytes → Bytes) → ℕ → Bytes → Bytes
tail4 m next i p =
    if leb 4 (length p) then bytewise m 0 (take 4 p) ++ next (i + 4) (drop 4 p) else next i p

unfoldable pub loop : ℕ → Mask → (ℕ → Bytes → Bytes) → ℕ → Bytes → Bytes
loop width m next i p = blocks width m next (length p) i p

unfoldable pub unmask_scalar : Mask → Bytes → Bytes
unmask_scalar m = loop 8 m (tail4 m (bytewise m)) 0

unfoldable pub unmask_sse2 : Mask → Bytes → Bytes
unmask_sse2 m p =
    if leb 16 (length p) then loop 16 m (loop 8 m (tail4 m (bytewise m))) 0 p else unmask_scalar m p

unfoldable pub unmask_avx2 : Mask → Bytes → Bytes
unmask_avx2 m p =
    if leb 32 (length p)
    then loop 32 m (loop 16 m (loop 8 m (tail4 m (bytewise m)))) 0 p
    else unmask_sse2 m p

-- The instructions that a build may use; AVX2 comes with SSE2.
pub data Build : Type 0 where
  scalar sse2 avx2 : Build

unfoldable pub ws_unmask_payload : Build → Mask → Bytes → Bytes
ws_unmask_payload scalar = unmask_scalar
ws_unmask_payload sse2 = unmask_sse2
ws_unmask_payload avx2 = unmask_avx2

module _ (m : Mask) where
  bytewise_shift : (i j : ℕ) (p : Bytes) → i % 4 ≡ j % 4 → bytewise m i p ≡ bytewise m j p
  unfolding bytewise mask_byte
  bytewise_shift i j [] h = refl
  bytewise_shift i j (b ∷ p) h = ground (arith, bytewise_shift (i + 1) (j + 1) p)

  bytewise_split :
      (n i : ℕ) (p : Bytes)
      → n ≤ length p
      → bytewise m i (take n p) ++ bytewise m (i + n) (drop n p) ≡ bytewise m i p
  unfolding bytewise
  bytewise_split zero i p h = bytewise_shift (i + 0) i p (omega arith)
  bytewise_split (suc n) i [] h = absurd (omega arith)
  bytewise_split (suc n) i (b ∷ p) h = ap (◌∷◌ (bit_xor b (mask_byte m i))) (
      ap (◌++◌ (bytewise m (i + 1) (take n p)))
        (bytewise_shift (i + suc n) (i + 1 + n) (drop n p) (ap (λ x. x % 4) (omega arith)))
      ∙ bytewise_split n (i + 1) p (omega arith))

  -- What comes after a block continues the plain loop, if it does so at indices divisible by 4.
  abbrev Continues : (ℕ → Bytes → Bytes) → Type 0
  Continues next = (i : ℕ) (p : Bytes) → i % 4 ≡ 0 → next i p ≡ bytewise m i p

  blocks-bytewise :
      (width : ℕ) (next : ℕ → Bytes → Bytes)
      → width % 4 ≡ 0
      → Continues next
      → (fuel i : ℕ) (p : Bytes) → i % 4 ≡ 0
      → blocks width m next fuel i p ≡ bytewise m i p
  unfolding blocks
  blocks-bytewise width next w h zero i p e = h i p e
  blocks-bytewise width next w h (suc fuel) i p e = elim (Bool-cases (leb width (length p))) [
    | inl more ↦
        rw (more, blocks)
          (ap (λ x. bytewise m 0 (take width p) ++ x)
              (blocks-bytewise width next w h fuel (i + width) (drop width p) (omega arith))
            ∙ ap (λ x. x ++ bytewise m (i + width) (drop width p))
                (bytewise_shift 0 i (take width p) (omega arith))
            ∙ bytewise_split width i p (leb→le width (length p) more))
    | inr done ↦ rw (done, blocks) (h i p e)
  ]

  loop-bytewise :
      (width : ℕ) (next : ℕ → Bytes → Bytes)
      → width % 4 ≡ 0
      → Continues next
      → Continues (loop width m next)
  unfolding loop
  loop-bytewise width next w h i p e = blocks-bytewise width next w h (length p) i p e

  tail4-bytewise : Continues (tail4 m (bytewise m))
  unfolding tail4
  tail4-bytewise i p e =
      ground (arith, bytewise_shift 0 i (take 4 p) (omega arith), bytewise_split 4 i p)

  scalar-bytewise : (p : Bytes) → unmask_scalar m p ≡ bytewise m 0 p
  unfolding unmask_scalar
  scalar-bytewise p = loop-bytewise 8 (tail4 m (bytewise m)) refl tail4-bytewise 0 p refl

  sse2-bytewise : (p : Bytes) → unmask_sse2 m p ≡ bytewise m 0 p
  unfolding unmask_sse2
  sse2-bytewise p =
      let words = loop-bytewise 8 (tail4 m (bytewise m)) refl tail4-bytewise in
      ground (
        arith,
        loop-bytewise 16 (loop 8 m (tail4 m (bytewise m))) refl words 0 p refl,
        scalar-bytewise p,
      )

  avx2-bytewise : (p : Bytes) → unmask_avx2 m p ≡ bytewise m 0 p
  unfolding unmask_avx2
  avx2-bytewise p =
      let words = loop-bytewise 8 (tail4 m (bytewise m)) refl tail4-bytewise in
      let halves = loop-bytewise 16 (loop 8 m (tail4 m (bytewise m))) refl words in
      ground (
        arith,
        loop-bytewise 32 (loop 16 m (loop 8 m (tail4 m (bytewise m)))) refl halves 0 p refl,
        sse2-bytewise p,
      )

  -- Whatever instructions the build uses, byte `i` is combined with byte `i & 3` of the mask.
  pub ws_unmask_payload-eq :
      (build : Build) (p : Bytes) → ws_unmask_payload build m p ≡ bytewise m 0 p
  unfolding ws_unmask_payload
  ws_unmask_payload-eq scalar p = scalar-bytewise p
  ws_unmask_payload-eq sse2 p = sse2-bytewise p
  ws_unmask_payload-eq avx2 p = avx2-bytewise p
