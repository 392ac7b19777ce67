-- ===== src/Net/Names.antt =====
-- DNS queries and their answers: `dns_build_query` and `dns_parse_response` of src/kernel/net.c.
use sistem_operasi.Base.{
  ℕ, zero, suc, ◌+◌, ◌*◌, ◌/◌, ◌%◌, ◌≡◌, ◌≤◌, ◌<◌, refl, ap, ◌∙◌, true, false, some, List, [], ◌∷◌,
  ◌++◌, append_assoc, take, drop, length, length-append, ltb, ◌==◌, arith,
}
use sistem_operasi.Net.Dns.{
  labels, write_labels, query_header, build_query, skip_qname, find_answer, parse_response,
}

-- Every label has 1 to 63 bytes.
abbrev pub AreLabels : List (List ℕ) → Type 0
AreLabels [] = Unit {0}
AreLabels (l ∷ ls) = (1 ≤ length l) × (length l ≤ 63) × AreLabels ls

-- Labels as a packet has them.
abbrev pub name_of : List (List ℕ) → List ℕ
name_of [] = []
name_of (l ∷ ls) = length l % 256 ∷ (l ++ name_of ls)

drop-length {ℓ} : {A : Type ℓ} (xs ys : List A) → drop (length xs) (xs ++ ys) ≡ ys
drop-length [] ys = refl
drop-length (x ∷ xs) ys = drop-length xs ys

take-length {ℓ} : {A : Type ℓ} (xs ys : List A) → take (length xs) (xs ++ ys) ≡ xs
take-length [] ys = refl
take-length (x ∷ xs) ys = ap (λ r. x ∷ r) (take-length xs ys)

write_labels-fits :
    (at : ℕ) (ls : List (List ℕ))
    → at + length (name_of ls) ≤ 507
    → write_labels at ls ≡ some (name_of ls)
unfolding write_labels
write_labels-fits at [] h = refl
write_labels-fits at (l ∷ ls) h =
    let len = length-append l (name_of ls) in
    let room : ltb 512 (at + 1 + length l + 5) ≡ false = ground (arith, len) in
    rw (room, write_labels-fits (at + 1 + length l) ls (omega (arith, len))) refl

-- The loop over a question's name ends behind it.
skip_qname-name :
    (fuel : ℕ) (ls : List (List ℕ)) (rest : List ℕ)
    → AreLabels ls
    → length ls < fuel
    → skip_qname fuel (name_of ls ++ (0 ∷ rest)) ≡ rest
unfolding skip_qname
skip_qname-name zero ls rest h l = absurd (omega arith)
skip_qname-name (suc fuel) [] rest h l = refl
skip_qname-name (suc fuel) (x ∷ ls) rest (lo, hi, h) l =
    let small : length x % 256 ≡ length x = omega arith in
    let plain : (length x % 256 == 0) ≡ false = ground arith in
    let short : (length x % 256 / 64 % 4 == 3) ≡ false = ground arith in
    rw
      (
        plain,
        short,
        small,
        append_assoc x (name_of ls) (0 ∷ rest),
        drop-length x (name_of ls ++ (0 ∷ rest)),
      )
      (skip_qname-name fuel ls rest h (omega arith))

length-name_of : (ls : List (List ℕ)) → length ls ≤ length (name_of ls)
length-name_of [] = omega arith
length-name_of (l ∷ ls) = omega (arith, length-append l (name_of ls), length-name_of ls)

-- The answer of a server: the question with the flags of an answer, and one record that points to the
-- name of the question, with the address `ip`.
abbrev pub reply : List ℕ → List ℕ → List ℕ
reply q ip =
    take 2 q
    ++ (0x81
        ∷ 0x80
        ∷ (take 2 (drop 4 q)
            ++ (0 ∷ 1 ∷ (drop 8 q ++ (0xC0 ∷ 12 ∷ 0 ∷ 1 ∷ 0 ∷ 1 ∷ 0 ∷ 0 ∷ 0 ∷ 60 ∷ 0 ∷ 4 ∷ ip)))))

parse_response-header :
    (hi lo : ℕ) (r : List ℕ) (txid : ℕ)
    → hi * 256 + lo ≡ txid
    → parse_response (hi ∷ lo ∷ 0x81 ∷ 0x80 ∷ 0 ∷ 1 ∷ 0 ∷ 1 ∷ 0 ∷ 0 ∷ 0 ∷ 0 ∷ r) txid
      ≡ find_answer 1 (drop 4 (skip_qname (length r) r))
unfolding parse_response
parse_response-header hi lo r txid e =
    let long : ltb (length (hi ∷ lo ∷ 0x81 ∷ 0x80 ∷ 0 ∷ 1 ∷ 0 ∷ 1 ∷ 0 ∷ 0 ∷ 0 ∷ 0 ∷ r)) 12 ≡ false =
      ground arith in
    let mine : (hi * 256 + lo == txid) ≡ true = ground arith in rw (long, mine) refl

find_answer-pointer :
    (ip : List ℕ)
    → length ip ≡ 4
    → find_answer 1 (0xC0 ∷ 12 ∷ 0 ∷ 1 ∷ 0 ∷ 1 ∷ 0 ∷ 0 ∷ 0 ∷ 60 ∷ 0 ∷ 4 ∷ ip) ≡ some ip
unfolding find_answer
find_answer-pointer [] l = absurd (omega arith)
find_answer-pointer (a ∷ []) l = absurd (omega arith)
find_answer-pointer (a ∷ b ∷ []) l = absurd (omega arith)
find_answer-pointer (a ∷ b ∷ c ∷ []) l = absurd (omega arith)
find_answer-pointer (a ∷ b ∷ c ∷ d ∷ []) l = refl
find_answer-pointer (a ∷ b ∷ c ∷ d ∷ e ∷ ip) l = absurd (omega arith)

-- The type and the class of a question, behind the 0 that ends its name.
abbrev question : List ℕ
question = 0 ∷ 1 ∷ 0 ∷ 1 ∷ []

-- The packet of a query.
abbrev query_of : List ℕ → ℕ → List ℕ
query_of host txid = query_header txid ++ (name_of (labels host) ++ (0 ∷ question))

build_query-fits :
    (host : List ℕ) (txid : ℕ)
    → length (name_of (labels host)) ≤ 495
    → build_query host txid ≡ some (query_of host txid)
unfolding build_query
build_query-fits host txid h =
    rw (write_labels-fits 12 (labels host) (omega arith), build_query) refl

-- What follows the header of an answer is read up to its address.
find_answer-name :
    (ls : List (List ℕ)) (tail : List ℕ)
    → AreLabels ls
    → let r = (name_of ls ++ (0 ∷ question)) ++ tail in
      find_answer 1 (drop 4 (skip_qname (length r) r)) ≡ find_answer 1 tail
find_answer-name ls tail h =
    let e = append_assoc (name_of ls) (0 ∷ question) tail in
    let enough : length ls < length (name_of ls ++ (0 ∷ (question ++ tail))) =
      omega (arith, length-name_of ls, length-append (name_of ls) (0 ∷ (question ++ tail))) in
    rw (e, skip_qname-name _ ls (question ++ tail) h enough) refl

-- For a host name whose labels have 1 to 63 bytes and take at most 495 bytes with their lengths,
-- `dns_build_query` makes a query; `dns_parse_response` of the answer to it that has the address `ip`
-- gives `ip`.
pub parse_response-build_query :
    (host : List ℕ) (txid : ℕ) (ip : List ℕ)
    → AreLabels (labels host)
    → length (name_of (labels host)) ≤ 495
    → txid < 65536
    → length ip ≡ 4
    → (q : List ℕ) × (build_query host txid ≡ some q) × (parse_response (reply q ip) txid ≡ some ip)
parse_response-build_query host txid ip h fits lt four = (
  query_of host txid,
  build_query-fits host txid fits,
  parse_response-header (txid / 256 % 256) (txid % 256) _ txid (omega arith)
      ∙ find_answer-name (labels host) _ h
      ∙ find_answer-pointer ip four,
)
