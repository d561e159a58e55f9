-- ===== src/Block/Keys.antt =====
-- The bytes of a key, eight to a block: `key.extend_from_slice(&id.raw().to_be_bytes())` of
-- src/index.rs.
use seqcache.Prelude.{
  ℕ, zero, suc, ◌+◌, ◌*◌, ◌/◌, ◌%◌, ◌^◌, ◌≤◌, ◌≡◌, ◌↔◌, refl, sym, ap, ◌∙◌, List, [], ◌∷◌, ◌++◌,
  length, length-append, take, drop, All, arith,
}
use native.Mathlib.Nat.{
  add-mul, mul-add, mul_comm, mul_assoc, div-add-mod, div-div-eq-div-mul, pow-suc, mod-eq_of_lt,
  mod-one,
}
use mathlib.Core.Path.{ap₂}
use mathlib.Core.List.{append-nil, append_assoc}
use seqcache.Word.{u64_max}
use seqcache.Block.{be_bytes, key_bytes}

-- The number that some bytes stand for, the first the most significant, behind those read so far.
abbrev pub be_value : ℕ → List ℕ → ℕ
be_value acc [] = acc
be_value acc (b ∷ bs) = be_value (acc * 256 + b) bs

digit_of :
    (m id acc : ℕ) → (acc * 256 + id / m % 256) * m + id % m ≡ acc * (m * 256) + id % (m * 256)
digit_of m id acc =
    let q : ℕ = id / m in
    omega (
      arith,
      add-mul (acc * 256) (q % 256) m,
      mul_comm (q % 256) m,
      mul_assoc acc 256 m,
      ap (λ (t : ℕ). acc * t) (mul_comm 256 m),
      div-add-mod id m,
      div-add-mod id (m * 256),
      ap (λ (t : ℕ). m * 256 * t) (div-div-eq-div-mul id m 256),
      mul_assoc m 256 (q / 256),
      ap (λ (t : ℕ). m * t) (div-add-mod q 256),
      mul-add m (256 * (q / 256)) (q % 256),
    )

digit :
    (w id acc : ℕ)
    → (acc * 256 + id / 256 ^ w % 256) * 256 ^ w + id % 256 ^ w
      ≡ acc * 256 ^ suc w + id % 256 ^ suc w
digit w id acc = rw (pow-suc 256 w) (digit_of (256 ^ w) id acc)

be_value-be_bytes :
    (w id acc : ℕ) (rest : List ℕ)
    → be_value acc (be_bytes w id ++ rest) ≡ be_value (acc * 256 ^ w + id % 256 ^ w) rest
unfolding be_bytes
be_value-be_bytes zero id acc rest = ap (λ n. be_value n rest) (omega (arith, mod-one id))
be_value-be_bytes (suc w) id acc rest =
    be_value-be_bytes w id (acc * 256 + id / 256 ^ w % 256) rest
    ∙ ap (λ n. be_value n rest) (digit w id acc)

length-be_bytes : (w id : ℕ) → length (be_bytes w id) ≡ w
unfolding be_bytes
length-be_bytes zero id = refl
length-be_bytes (suc w) id = ap suc (length-be_bytes w id)

take-append : (n : ℕ) (xs ys : List ℕ) → length xs ≡ n → take n (xs ++ ys) ≡ xs
take-append zero [] ys h = refl
take-append zero (x ∷ xs) ys h = absurd (omega arith)
take-append (suc n) [] ys h = absurd (omega arith)
take-append (suc n) (x ∷ xs) ys h = ap (◌∷◌ x) (take-append n xs ys (omega arith))

drop-append : (n : ℕ) (xs ys : List ℕ) → length xs ≡ n → drop n (xs ++ ys) ≡ ys
drop-append zero [] ys h = refl
drop-append zero (x ∷ xs) ys h = absurd (omega arith)
drop-append (suc n) [] ys h = absurd (omega arith)
drop-append (suc n) (x ∷ xs) ys h = drop-append n xs ys (omega arith)

-- The identities of a key: its bytes, eight at a time.
abbrev pub ids_of : ℕ → List ℕ → List ℕ
ids_of zero bytes = []
ids_of (suc n) bytes = be_value 0 (take 8 bytes) ∷ ids_of n (drop 8 bytes)

first_id : (id : ℕ) → id ≤ u64_max → be_value 0 (be_bytes 8 id) ≡ id
unfolding u64_max
first_id id small =
    let whole = be_value-be_bytes 8 id 0 [] in
    ap (be_value 0) (sym (append-nil (be_bytes 8 id)))
    ∙ whole
    ∙ omega (arith, mod-eq_of_lt {n = id} {m = 256 ^ 8} (omega arith))

-- The identities of the first blocks of a key are read back from its bytes, whatever follows them.
pub ids_of-key_bytes :
    (ids : List ℕ) (rest : List ℕ)
    → All (λ id. id ≤ u64_max) ids
    → ids_of (length ids) (key_bytes ids ++ rest) ≡ ids
unfolding key_bytes
ids_of-key_bytes [] rest small = refl
ids_of-key_bytes (id ∷ ids) rest (here, there) =
    let bytes = be_bytes 8 id in
    let sized = length-be_bytes 8 id in
    ap (ids_of (suc (length ids))) (append_assoc bytes (key_bytes ids) rest)
    ∙ ap₂ ◌∷◌
        (ap (be_value 0) (take-append 8 bytes (key_bytes ids ++ rest) sized) ∙ first_id id here)
        (ap (ids_of (length ids)) (drop-append 8 bytes (key_bytes ids ++ rest) sized)
          ∙ ids_of-key_bytes ids rest there)

pub length-key_bytes : (ids : List ℕ) → length (key_bytes ids) ≡ length ids * 8
unfolding key_bytes
length-key_bytes [] = omega arith
length-key_bytes (id ∷ ids) = omega (
  arith,
  length-append (be_bytes 8 id) (key_bytes ids),
  length-be_bytes 8 id,
  length-key_bytes ids,
)

key_bytes-append : (ids more : List ℕ) → key_bytes (ids ++ more) ≡ key_bytes ids ++ key_bytes more
unfolding key_bytes
key_bytes-append [] more = refl
key_bytes-append (id ∷ ids) more =
    rw (key_bytes-append ids more)
      (sym (append_assoc (be_bytes 8 id) (key_bytes ids) (key_bytes more)))

abbrev pub IsPrefix : List ℕ → List ℕ → Type 0
IsPrefix xs ys = (rest : List ℕ) × (ys ≡ xs ++ rest)

first_same :
    (x y : ℕ) (as' bs : List ℕ)
    → x ≤ u64_max
    → y ≤ u64_max
    → be_bytes 8 y ++ bs ≡ be_bytes 8 x ++ as'
    → (y ≡ x) × (bs ≡ as')
first_same x y as' bs small small' same =
    let front = ap (take 8) same in
    let back = ap (drop 8) same in
    let one =
      rw
        (
          take-append 8 (be_bytes 8 y) bs (length-be_bytes 8 y),
          take-append 8 (be_bytes 8 x) as' (length-be_bytes 8 x),
        )
        at front in
    let two =
      rw
        (
          drop-append 8 (be_bytes 8 y) bs (length-be_bytes 8 y),
          drop-append 8 (be_bytes 8 x) as' (length-be_bytes 8 x),
        )
        at back in
    (sym (first_id y small') ∙ ap (be_value 0) one ∙ first_id x small, two)

key_bytes-IsPrefix :
    (xs ys tail : List ℕ)
    → All (λ id. id ≤ u64_max) xs
    → All (λ id. id ≤ u64_max) ys
    → key_bytes ys ≡ key_bytes xs ++ tail
    → IsPrefix xs ys
unfolding key_bytes
key_bytes-IsPrefix [] ys tail small small' same = (ys, refl)
key_bytes-IsPrefix (x ∷ xs) [] tail small small' same = absurd (
    omega (
      arith,
      ap length same,
      length-append (be_bytes 8 x ++ key_bytes xs) tail,
      length-append (be_bytes 8 x) (key_bytes xs),
      length-be_bytes 8 x,
    ))
key_bytes-IsPrefix (x ∷ xs) (y ∷ ys) tail (here, there) (here', there') same =
    let (head, rest) =
      first_same x y (key_bytes xs ++ tail) (key_bytes ys) here here'
        (same ∙ append_assoc (be_bytes 8 x) (key_bytes xs) tail) in
    let (more, after) = key_bytes-IsPrefix xs ys tail there there' rest in
    (more, ap₂ ◌∷◌ head after)

-- For identities of 64 bits, the bytes of one key begin those of another exactly if its blocks begin
-- the other's.
pub key_bytes-prefix_iff :
    (xs ys : List ℕ)
    → All (λ id. id ≤ u64_max) xs
    → All (λ id. id ≤ u64_max) ys
    → IsPrefix (key_bytes xs) (key_bytes ys) ↔ IsPrefix xs ys
key_bytes-prefix_iff xs ys small small' = (
  λ (tail, same). key_bytes-IsPrefix xs ys tail small small' same,
  λ (more, same). (key_bytes more, ap key_bytes same ∙ key_bytes-append xs more),
)
