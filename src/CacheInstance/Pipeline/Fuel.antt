-- ===== src/CacheInstance/Pipeline/Fuel.antt =====
-- Every command that is read takes bytes, so that the loop ends with one unit of fuel for each byte.
use socketley.Prelude.{
  ℕ, zero, suc, ◌+◌, ◌-◌, ◌≤◌, ◌≡◌, ◌⊎◌, refl, arith, inl, inr, not, ◌&&◌, some, List, [], ◌∷◌,
  Bytes, length, drop, leb, ◌==◌, Bool-cases, Option-cases,
}
use socketley.Prelude.Lists.{length-drop}
use socketley.Resp.Decode.{
  ParseResult, ok, incomplete, error, find_crlf, bounded_number, resp_max_bulk_len,
  resp_max_array_size, bulk_view, bulk_view_slow, bulk_views, collect, count_view, count_slow,
  parse_message_views,
}
use socketley.Resp.Views.{count_view-eq}
use socketley.CacheInstance.Session.{Session, World}
use socketley.CacheInstance.Pipeline.{max_resp_args, resp_turn, resp_loop}

-- What is left of a text is no longer than it.
abbrev LeavesNoMore : {A : Type 0} → ℕ → ParseResult (A × Bytes) → Type 0
LeavesNoMore n (ok (a, rest)) = length rest ≤ n
LeavesNoMore n incomplete = 0 ≤ n
LeavesNoMore n error = 0 ≤ n

LeavesNoMore-weaken :
    {A : Type 0} {m n : ℕ} (r : ParseResult (A × Bytes))
    → LeavesNoMore m r
    → m ≤ n
    → LeavesNoMore n r
LeavesNoMore-weaken (ok (a, rest)) h k = omega arith
LeavesNoMore-weaken incomplete h k = omega arith
LeavesNoMore-weaken error h k = omega arith

find_crlf-shorter : (text line p : Bytes) → find_crlf text ≡ some (line, p) → length p ≤ length text
unfolding find_crlf
find_crlf-shorter [] line p e = ground arith
find_crlf-shorter (c ∷ []) line p e = ground arith
find_crlf-shorter (c ∷ d ∷ text) line p e = elim (Option-cases (find_crlf (d ∷ text))) [
  | inl nothing ↦ ground arith
  | inr ((line', p'), found) ↦ let ih = find_crlf-shorter (d ∷ text) line' p' found in ground arith
]

bulk_view_slow-shorter : (text : Bytes) → LeavesNoMore (length text) (bulk_view_slow text)
unfolding bulk_view_slow
bulk_view_slow-shorter text = elim (Option-cases (find_crlf text)) [
  | inl nothing ↦ ground arith
  | inr ((line, p), found) ↦
      let h = find_crlf-shorter text line p found in
      elim (Option-cases (bounded_number resp_max_bulk_len line)) [
        | inl bad ↦ ground arith
        | inr (len, e) ↦ let k = length-drop (len + 2) p in ground arith
      ]
]

bulk_view-shorter : (text : Bytes) → LeavesNoMore (length text) (bulk_view text)
unfolding bulk_view
bulk_view-shorter [] = omega arith
bulk_view-shorter (c ∷ []) = omega arith
bulk_view-shorter (c ∷ d ∷ []) = omega arith
bulk_view-shorter (c ∷ d ∷ e ∷ []) = omega arith
bulk_view-shorter (c ∷ d ∷ e ∷ f ∷ text) =
    let h = length-drop (d - b'0' + 2) text in
    let k = bulk_view_slow-shorter (d ∷ e ∷ f ∷ text) in
    elim (Bool-cases (not (c == b'$'))) [
      | inl bad ↦ ground arith
      | inr good ↦ elim (Bool-cases (leb b'0' d && leb d b'9' && e == 13 && f == 10)) [
        | inl digit ↦ ground arith
        | inr slow ↦ ground (arith, LeavesNoMore-weaken (bulk_view_slow (d ∷ e ∷ f ∷ text)) k)
      ]
    ]

collect-shorter :
    (n : ℕ) (r : ParseResult (Bytes × Bytes)) (more : Bytes → ParseResult (List Bytes × Bytes))
    → LeavesNoMore n r
    → ((p : Bytes) → LeavesNoMore (length p) (more p))
    → LeavesNoMore n (collect r more)
unfolding collect
collect-shorter n (ok (arg, q)) more h k =
    let l = LeavesNoMore-weaken (more q) (k q) h in go (more q) l
  where
    go :
        (m : ParseResult (List Bytes × Bytes))
        → LeavesNoMore n m
        → LeavesNoMore n
            (elim m [ ok (args, t) ↦ ok (arg ∷ args, t) | incomplete ↦ incomplete | error ↦ error ])
    go (ok (args, t)) l = l
    go incomplete l = l
    go error l = l
collect-shorter n incomplete more h k = h
collect-shorter n error more h k = h

bulk_views-shorter : (count : ℕ) (p : Bytes) → LeavesNoMore (length p) (bulk_views count p)
unfolding bulk_views
bulk_views-shorter zero p = omega arith
bulk_views-shorter (suc count) p =
    collect-shorter (length p) (bulk_view p) (bulk_views count) (bulk_view-shorter p)
      (bulk_views-shorter count)

count_slow-shorter : (text : Bytes) → LeavesNoMore (length text) (count_slow text)
unfolding count_slow
count_slow-shorter text = elim (Option-cases (find_crlf text)) [
  | inl nothing ↦ ground arith
  | inr ((line, p), found) ↦
      let h = find_crlf-shorter text line p found in
      elim (Option-cases (bounded_number resp_max_array_size line)) [
        | inl bad ↦ ground arith
        | inr (count, e) ↦ ground arith
      ]
]

pub ParseResult-cases :
    {A : Type 0} (r : ParseResult A) → (r ≡ incomplete) ⊎ (r ≡ error) ⊎ (a : A) × (r ≡ ok a)
ParseResult-cases (ok a) = inr (inr (a, refl))
ParseResult-cases incomplete = inl refl
ParseResult-cases error = inr (inl refl)

leaves :
    {A : Type 0} (n : ℕ) (r : ParseResult (A × Bytes)) (a : A) (rest : Bytes)
    → LeavesNoMore n r
    → r ≡ ok (a, rest)
    → length rest ≤ n
leaves n (ok (a', rest')) a rest h e = ground arith
leaves n incomplete a rest h e = ground arith
leaves n error a rest h e = ground arith

-- A command that is read takes one byte at least, and no more than there are.
pub parse_message_views-consumes :
    (max : ℕ) (text : Bytes) (args : List Bytes) (n : ℕ)
    → parse_message_views max text ≡ ok (args, n)
    → (1 ≤ n) × (n ≤ length text)
unfolding parse_message_views
parse_message_views-consumes max [] args n e = ground arith
parse_message_views-consumes max (c ∷ text) args n e = elim (ParseResult-cases (count_view text)) [
  | inl short ↦ ground arith
  | inr (inl bad) ↦ ground arith
  | inr (inr ((count, p), read)) ↦ elim (ParseResult-cases (bulk_views count p)) [
    | inl short ↦ ground arith
    | inr (inl bad) ↦ ground arith
    | inr (inr ((args', rest), found)) ↦
        let h : LeavesNoMore (length text) (count_view text) =
          rw count_view-eq (count_slow-shorter text) in
        let k = leaves (length text) (count_view text) count p h read in
        let l =
          leaves (length p) (bulk_views count p) args' rest (bulk_views-shorter count p) found in
        ground arith
  ]
]

-- With fuel for every byte that is unread, the fuel does not matter.
same_with_fuel :
    (f g : ℕ) (turns : ℕ → World) (text : Bytes) (x : Session)
    → length text ≤ f
    → length text ≤ g
    → resp_loop f turns text x ≡ resp_loop g turns text x
unfolding resp_loop
same_with_fuel f g turns [] x h k = ground arith
same_with_fuel (suc f) (suc g) turns (c ∷ text) x h k =
    elim (ParseResult-cases (parse_message_views max_resp_args (c ∷ text))) [
      | inl short ↦ ground arith
      | inr (inl bad) ↦ ground arith
      | inr (inr ((args, n), read)) ↦
          let m = parse_message_views-consumes max_resp_args (c ∷ text) args n read in
          let l = length-drop n (c ∷ text) in
          elim (Option-cases (resp_turn (turns 0) args x)) [
            | inl undefined ↦ ground arith
            | inr (y, turn) ↦
                let ih =
                  same_with_fuel f g (λ i. turns (suc i)) (drop n (c ∷ text)) y (omega arith)
                    (omega arith) in
                ground (arith, ih)
          ]
    ]
same_with_fuel zero g turns (c ∷ text) x h k = ground arith
same_with_fuel (suc f) zero turns (c ∷ text) x h k = ground arith

-- One unit of fuel for each byte that is unread is enough: more of it gives the same result.
pub resp_loop-enough_fuel :
    (fuel : ℕ) (turns : ℕ → World) (text : Bytes) (x : Session)
    → length text ≤ fuel
    → resp_loop fuel turns text x ≡ resp_loop (length text) turns text x
resp_loop-enough_fuel fuel turns text x h =
    same_with_fuel fuel (length text) turns text x h (omega arith)
