-- ===== src/Framework/Matching.antt =====
-- The suffix matching of src/framework.rs. A text is the list of its characters, and the messages of
-- the two errors carry what they name.
use Prim.Native.Char.{Char, code}
use Prim.Native.String.{String}
use offload.Base.{
  ℕ, zero, suc, ◌-◌, ◌≤◌, ◌<◌, max, ◌≡◌, refl, ap, ◌∙◌, inl, inr, Bool, true, false, ◌&&◌, Option,
  none, some, List, [], ◌∷◌, ◌++◌, append-nil, append_assoc, arith, ltb, if◌then◌else◌, ltb→lt,
  Bool-cases, length, keep, ◌==◌, comparable_number, comparable_text, eq_self,
}

abbrev pub Text : Type 0
Text = List Char

abbrev pub chars : String → Text
chars String.[] = []
chars (String.◌∷◌ c s) = c ∷ chars s

abbrev pub text : Text → String
text [] = ""
text (c ∷ s) = String.◌∷◌ c (text s)

abbrev pub same_char : Char → Char → Bool
same_char a b = code a == code b

abbrev pub starts_with : Text → Text → Bool
starts_with s [] = true
starts_with [] (p ∷ ps) = false
starts_with (c ∷ s) (p ∷ ps) = same_char c p && starts_with s ps

-- str::replace, for a pattern that is not empty: after a match as many characters are passed over.
unfoldable pub replace_from : Text → Text → ℕ → Text → Text
replace_from pattern by n [] = []
replace_from pattern by (suc n) (c ∷ s) = replace_from pattern by n s
replace_from pattern by zero (c ∷ s) =
    let behind = replace_from pattern by (length pattern - 1) s in
    let next = replace_from pattern by 0 s in
    if starts_with (c ∷ s) pattern then by ++ behind else c ∷ next

unfoldable pub replace : Text → String → String → Text
unfolding replace_from
replace s pattern by = replace_from (chars pattern) (chars by) 0 s

unfoldable pub normalize_test_id : Text → Text
unfolding replace
normalize_test_id s = replace (replace (replace s "/" ".") ".py" "") "::" "."

-- `zip`, `take_while` and `count`
unfoldable pub common_prefix_len : Text → Text → ℕ
common_prefix_len [] t = 0
common_prefix_len (a ∷ s) [] = 0
common_prefix_len (a ∷ s) (b ∷ t) =
    let rest = common_prefix_len s t in if same_char a b then suc rest else 0

abbrev pub reverse_onto : Text → Text → Text
reverse_onto done [] = done
reverse_onto done (c ∷ s) = reverse_onto (c ∷ done) s

unfoldable pub longest_common_suffix_len : Text → Text → ℕ
unfolding common_prefix_len
longest_common_suffix_len a b = common_prefix_len (reverse_onto [] a) (reverse_onto [] b)

unfoldable pub reconstruct : Text → Option Text → Text
reconstruct name none = name
reconstruct name (some []) = name
reconstruct name (some (c ∷ cn)) = (c ∷ cn) ++ (chars "::" ++ name)

-- `match suffix_len.cmp(&best_len)`
abbrev pub advance : (Text → ℕ) → ℕ × List Text → Text → ℕ × List Text
advance suffix_len best batch_id =
    let n = suffix_len batch_id in
    if ltb best.0 n
    then (n, batch_id ∷ [])
    else if n == best.0
    then (best.0, best.1 ++ batch_id ∷ [])
    else best

-- The loop over the batch's ids, from the best length and the best ids so far.
unfoldable pub best_matches : (Text → ℕ) → ℕ × List Text → List Text → ℕ × List Text
best_matches suffix_len best [] = best
best_matches suffix_len best (batch_id ∷ batch_ids) =
    best_matches suffix_len (advance suffix_len best batch_id) batch_ids

pub data Resolution : Type 0 where
  resolved : Text → Resolution
  no_match : Text → Resolution
  ambiguous : Text → List Text → Resolution

unfoldable pub conclude : Text → ℕ × List Text → Resolution
conclude reconstructed (best_len, []) = no_match reconstructed
conclude reconstructed (best_len, id ∷ []) =
    if best_len == 0 then no_match reconstructed else resolved id
conclude reconstructed (best_len, id ∷ other ∷ ids) =
    if best_len == 0 then no_match reconstructed else ambiguous reconstructed (id ∷ other ∷ ids)

unfoldable pub suffix_len_of : Text → Text → ℕ
unfolding normalize_test_id longest_common_suffix_len
suffix_len_of reconstructed batch_id =
    longest_common_suffix_len (normalize_test_id reconstructed) (normalize_test_id batch_id)

unfoldable pub resolve_test_id_suffix_matching : Text → Option Text → List Text → Resolution
unfolding reconstruct best_matches conclude suffix_len_of
resolve_test_id_suffix_matching name classname batch_ids =
    let reconstructed = reconstruct name classname in
    conclude reconstructed (best_matches (suffix_len_of reconstructed) (0, []) batch_ids)

-- The specification: the longest length, and all ids that reach it.
abbrev pub longest : (Text → ℕ) → List Text → ℕ
longest suffix_len [] = 0
longest suffix_len (id ∷ ids) = max (suffix_len id) (longest suffix_len ids)

abbrev pub reaching : (Text → ℕ) → ℕ → List Text → List Text
reaching suffix_len n ids = keep (λ id. suffix_len id == n) ids

abbrev pub standing : (Text → ℕ) → List Text → ℕ × List Text
standing suffix_len ids = (longest suffix_len ids, reaching suffix_len (longest suffix_len ids) ids)

keep-append :
    {A : Type 0} (p : A → Bool) (xs ys : List A) → keep p (xs ++ ys) ≡ keep p xs ++ keep p ys
keep-append p [] ys = refl
keep-append p (x ∷ xs) ys = ground (arith, keep-append p xs ys)

longest-append :
    (f : Text → ℕ) (seen : List Text) (id : Text)
    → longest f (seen ++ id ∷ []) ≡ max (longest f seen) (f id)
longest-append f [] id = omega arith
longest-append f (x ∷ seen) id = omega (arith, longest-append f seen id)

reaching-none :
    (f : Text → ℕ) (n : ℕ) (seen : List Text) → longest f seen < n → reaching f n seen ≡ []
reaching-none f n [] h = refl
reaching-none f n (x ∷ seen) h =
    let different : (f x == n) ≡ false = ground (arith, h) in
    rw different (reaching-none f n seen (omega (arith, h)))

one_more :
    (f : Text → ℕ) (seen : List Text) (id : Text)
    → advance f (standing f seen) id ≡ standing f (seen ++ id ∷ [])
one_more f seen id = elim (Bool-cases (ltb (longest f seen) (f id))) [
  | inl t ↦
      let above = ltb→lt (longest f seen) (f id) t in
      let top : max (longest f seen) (f id) ≡ f id = omega (arith, above) in
      rw
        (
          t,
          longest-append f seen id,
          top,
          keep-append (λ x. f x == f id) seen (id ∷ []),
          reaching-none f (f id) seen above,
          eq_self (f id),
        )
        refl
  | inr t ↦
      let below : f id ≤ longest f seen = ground (arith, t) in
      let top : max (longest f seen) (f id) ≡ longest f seen = omega (arith, below) in
      rw (t, longest-append f seen id, top, keep-append (λ x. f x == longest f seen) seen (id ∷ []))
        (elim (Bool-cases (f id == longest f seen)) [
          | inl e ↦ rw e refl
          | inr e ↦ rw (e, append-nil (reaching f (longest f seen) seen)) refl
        ])
]

best_matches-reaching :
    (f : Text → ℕ) (seen ids : List Text)
    → best_matches f (standing f seen) ids ≡ standing f (seen ++ ids)
unfolding best_matches
best_matches-reaching f seen [] = rw (append-nil seen) refl
best_matches-reaching f seen (id ∷ ids) =
    ap (λ b. best_matches f b ids) (one_more f seen id)
    ∙ rw (← append_assoc seen (id ∷ []) ids) (best_matches-reaching f (seen ++ id ∷ []) ids)

-- A testcase resolves to the one id whose normalised text shares the longest suffix with its own, if
-- that suffix is not empty. With several such ids it is ambiguous between exactly these, in order, and
-- with an empty suffix it has no match.
pub resolve_test_id_suffix_matching-reaching :
    (name : Text) (classname : Option Text) (batch_ids : List Text)
    → (let suffix_len = suffix_len_of (reconstruct name classname) in
        resolve_test_id_suffix_matching name classname batch_ids
        ≡ conclude (reconstruct name classname) (standing suffix_len batch_ids))
unfolding resolve_test_id_suffix_matching
resolve_test_id_suffix_matching-reaching name classname batch_ids =
    ap (conclude (reconstruct name classname))
      (best_matches-reaching (suffix_len_of (reconstruct name classname)) [] batch_ids)
