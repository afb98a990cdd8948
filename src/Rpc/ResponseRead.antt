-- ===== src/Rpc/ResponseRead.antt =====
-- Where the fields of an accepted response stand in its bytes.
use mathlib.Core.List.{append-nil}
use hashiverse.Prelude.{
  or_fail, Option, Error, ℕ, zero, suc, ◌+◌, some, none, get_elem?, unknown, ◌≡◌, refl, sym, ap,
  ap₂, ◌∙◌, subst, arith, leb, leb→le, ◌==◌, ==_iff, Bool, Bool-cases, true, inl, inr,
  if◌then◌else◌, List, [], ◌∷◌, ◌++◌, length, length-take, take, take-append-drop, truncated,
  excess, wrong_version, wrong_length, Result, ok, ◌>>=◌, ◌>>◌, ensure, >>=-eq-ok, ensure-eq-ok,
  ok_inj,
}
use hashiverse.Buffer.{get_u8, copy_to_bytes, copy_to_bytes-ok}
use hashiverse.FeedbackBundle.{array_from_slice}
use hashiverse.Gatherer.{is_empty_bytes}
use hashiverse.Compression.{from_le_bytes}
use hashiverse.Rpc.{
  PayloadResponseKind, response_kinds, response_kind_number, response_kind_from_u16, get_le,
  read_array,
}
use hashiverse.Rpc.Response.{
  ResponseHeader, response_flags_from_bits, response_payload, parse_response,
}

get_u8-ok : (bs : List ℕ) (b : ℕ) (rest : List ℕ) → get_u8 bs ≡ ok (b, rest) → bs ≡ b ∷ rest
unfolding get_u8
get_u8-ok [] b rest h = absurd cc
get_u8-ok (x ∷ xs) b rest h = ap (λ r. r.0 ∷ r.1) (ok_inj _ _ h)

get_le-ok :
    (n : ℕ) (bs : List ℕ) (v : ℕ) (rest : List ℕ)
    → get_le n bs ≡ ok (v, rest)
    → (le : List ℕ) × (bs ≡ le ++ rest) × (length le ≡ n) × (from_le_bytes le ≡ v)
unfolding get_le
get_le-ok n bs v rest h = elim (Bool-cases (leb n (length bs))) [
  | inr e ↦ absurd (cc (rw e at h))
  | inl e ↦
      let same = ok_inj _ _ (rw e at h) in
      (
        take n bs,
        subst (λ r. bs ≡ take n bs ++ r.1) same (sym (take-append-drop n bs)),
        omega (arith, length-take n bs, leb→le n (length bs) e),
        ap (λ r. r.0) same,
      )
]

read_array-ok :
    (n : ℕ) (bs a rest : List ℕ)
    → read_array n bs ≡ ok (a, rest)
    → (bs ≡ a ++ rest) × (length a ≡ n)
unfolding read_array array_from_slice
read_array-ok n bs a rest h =
    let (x, e, h1) = >>=-eq-ok (copy_to_bytes n bs) _ h in
    let (y, e1, h2) = >>=-eq-ok (array_from_slice n x.0) _ h1 in
    let (size, h3) = ensure-eq-ok (length x.0 == n) wrong_length (ok x.0) e1 in
    let same : (y, x.1) ≡ (a, rest) = ok_inj _ _ h2 in
    let (split, long) = copy_to_bytes-ok n bs x.0 x.1 e in
    (
      split ∙ ap₂ ◌++◌ (ok_inj _ _ h3 ∙ ap (λ r. r.0) same) (ap (λ r. r.1) same),
      sym (ap length (ok_inj _ _ h3 ∙ ap (λ r. r.0) same)) ∙ long,
    )

some_inj : {A : Type 0} (x y : A) → some x ≡ some y → x ≡ y
some_inj x y h = cc

or_fail-ok : {A : Type 0} (o : Option A) (e : Error) (x : A) → or_fail o e ≡ ok x → o ≡ some x
or_fail-ok none e x h = absurd cc
or_fail-ok (some y) e x h = ap some (ok_inj y x h)

empty_lem : (bs : List ℕ) → is_empty_bytes bs ≡ true → bs ≡ []
unfolding is_empty_bytes
empty_lem [] h = refl
empty_lem (b ∷ bs) h = absurd cc

abbrev AreNumbered : ℕ → List PayloadResponseKind → Type 0
AreNumbered i [] = Unit {0}
AreNumbered i (k ∷ ks) = (response_kind_number k ≡ i) × AreNumbered (suc i) ks

numbered-get :
    (i : ℕ) (ks : List PayloadResponseKind) (n : ℕ) (k : PayloadResponseKind)
    → AreNumbered i ks
    → get_elem? ks n ≡ some k
    → response_kind_number k ≡ i + n
numbered-get i [] n k a h = absurd cc
numbered-get i (x ∷ ks) zero k a h = omega (arith, ap response_kind_number (some_inj x k h), a.0)
numbered-get i (x ∷ ks) (suc n) k a h = omega (arith, numbered-get (suc i) ks n k a.1 h)

response_kind_from_u16-ok :
    (n : ℕ) (k : PayloadResponseKind) → response_kind_from_u16 n ≡ ok k → response_kind_number k ≡ n
unfolding response_kind_from_u16 response_kind_number
response_kind_from_u16-ok n k h = omega (
  arith,
  numbered-get 0 response_kinds n k
      (
        refl,
        (
          refl,
          (
            refl,
            (
              refl,
              (
                refl,
                (
                  refl,
                  (
                    refl,
                    (
                      refl,
                      (
                        refl,
                        (refl, (refl, (refl, (refl, (refl, (refl, (refl, (refl, (refl, tt))))))))),
                      ),
                    ),
                  ),
                ),
              ),
            ),
          ),
        ),
      )
      (or_fail-ok (get_elem? response_kinds n) unknown k h),
)

response_flags_from_bits-ok :
    (n : ℕ) (f : Bool) → response_flags_from_bits n ≡ ok f → n ≡ (if f then 1 else 0)
unfolding response_flags_from_bits
response_flags_from_bits-ok n f h = ground arith

response_payload-ok :
    (bytes payload : List ℕ)
    → response_payload bytes ≡ ok payload
    → (size : List ℕ) × (bytes ≡ size ++ payload)
      × (length size ≡ 4)
      × (from_le_bytes size ≡ length payload)
unfolding response_payload is_empty_bytes
response_payload-ok bytes payload h =
    let (x, e, h1) = >>=-eq-ok (get_le 4 bytes) _ h in
    let (fits, h2) = ensure-eq-ok (leb x.0 16777216) excess _ h1 in
    let (there, h3) = ensure-eq-ok (leb x.0 (length x.1)) truncated _ h2 in
    let (y, e4, h4) = >>=-eq-ok (copy_to_bytes x.0 x.1) _ h3 in
    let (last, h5) = ensure-eq-ok (is_empty_bytes y.1) excess (ok y.0) h4 in
    let (size, split, long, is) = get_le-ok 4 bytes x.0 x.1 e in
    let (split2, long2) = copy_to_bytes-ok x.0 x.1 y.0 y.1 e4 in
    let all : x.1 ≡ payload =
      split2 ∙ ap₂ ◌++◌ (ok_inj _ _ h5) (empty_lem y.1 last) ∙ append-nil payload in
    (size, split ∙ ap (◌++◌ size) all, long, is ∙ sym long2 ∙ ap length (ok_inj _ _ h5))

-- Under a bind: the rest with the value as a variable.
peel :
    {A B G : Type 0} (r : Result A) (next : A → Result B) {b : B}
    → (r >>= next) ≡ ok b
    → ((a : A) → r ≡ ok a → next a ≡ ok b → G)
    → G
peel r next h k = let (a, e, h1) = >>=-eq-ok r next h in k a e h1

checked :
    {B G : Type 0} (test : Bool) (why : Error) (next : Result B) {b : B}
    → (ensure test why >> next) ≡ ok b
    → (test ≡ true → next ≡ ok b → G)
    → G
checked test why next h k = let (e, h1) = ensure-eq-ok test why next h in k e h1

-- The bytes of a response are these fields, one after the other, and the payload; a number is written
-- with its last byte first.
pub record IsFrame (bytes : List ℕ) (h : ResponseHeader) (packed : List ℕ) : Type 0 where
  pub kind_bytes : List ℕ
  pub size_bytes : List ℕ
  pub laid_out :
      bytes
      ≡ 1
        ∷ (if h.compressed then 1 else 0)
        ∷ (kind_bytes
            ++ (h.verification_key
                ++ (h.pq_commitment
                    ++ (h.sponsor_id
                        ++ (h.timestamp_be
                            ++ (h.hash ++ (h.salt ++ (h.signature ++ (size_bytes ++ packed)))))))))
  pub kind_size : length kind_bytes ≡ 2
  pub kind_number : from_le_bytes kind_bytes ≡ response_kind_number h.kind
  pub size_size : length size_bytes ≡ 4
  pub size_number : from_le_bytes size_bytes ≡ length packed
  pub key : length h.verification_key ≡ 32
  pub commitment : length h.pq_commitment ≡ 32
  pub sponsor : length h.sponsor_id ≡ 32
  pub time : length h.timestamp_be ≡ 8
  pub content : length h.hash ≡ 32
  pub salted : length h.salt ≡ 8
  pub signed : length h.signature ≡ 64

pub parse_response-IsFrame :
    (bytes : List ℕ) (h : ResponseHeader) (rest packed : List ℕ)
    → parse_response bytes ≡ ok (h, rest)
    → response_payload rest ≡ ok packed
    → IsFrame bytes h packed
unfolding parse_response
parse_response-IsFrame bytes h rest packed e f =
    checked (leb 216 (length bytes)) truncated _ e (λ _ e0. peel (get_u8 bytes) _ e0 (λ x1 f1 e1.
      checked (1 == x1.0) wrong_version _ e1 (λ version e2. peel (get_u8 x1.1) _ e2 (λ x2 f2 e3.
        peel (response_flags_from_bits x2.0) _ e3 (λ flag f3 e4.
          peel (get_le 2 x2.1) _ e4 (λ x3 f4 e5.
            peel (response_kind_from_u16 x3.0) _ e5 (λ kind f5 e6.
              peel (read_array 32 x3.1) _ e6 (λ x4 f6 e7.
                peel (read_array 32 x4.1) _ e7 (λ x5 f7 e8.
                  peel (read_array 32 x5.1) _ e8 (λ x6 f8 e9.
                    peel (read_array 8 x6.1) _ e9 (λ x7 f9 e10.
                      peel (read_array 32 x7.1) _ e10 (λ x8 f10 e11.
                        peel (read_array 8 x8.1) _ e11 (λ x9 f11 e12.
                          peel (read_array 64 x9.1) _ e12 (λ x10 f12 e13.
                            let (kind_bytes, s3, l3, n3) = get_le-ok 2 x2.1 x3.0 x3.1 f4 in
                            let (s4, l4) = read_array-ok 32 x3.1 x4.0 x4.1 f6 in
                            let (s5, l5) = read_array-ok 32 x4.1 x5.0 x5.1 f7 in
                            let (s6, l6) = read_array-ok 32 x5.1 x6.0 x6.1 f8 in
                            let (s7, l7) = read_array-ok 8 x6.1 x7.0 x7.1 f9 in
                            let (s8, l8) = read_array-ok 32 x7.1 x8.0 x8.1 f10 in
                            let (s9, l9) = read_array-ok 8 x8.1 x9.0 x9.1 f11 in
                            let (s10, l10) = read_array-ok 64 x9.1 x10.0 x10.1 f12 in
                            let same = ok_inj _ _ e13 in
                            let (size_bytes, s11, l11, n11) = response_payload-ok x10.1 packed (
                              subst (λ r. response_payload r ≡ ok packed) (ap (λ r. r.1) (sym same))
                                f) in
                            subst (λ g. IsFrame bytes g packed) (ap (λ r. r.0) same)
                              (record {
                                kind_bytes = kind_bytes;
                                size_bytes = size_bytes;
                                laid_out =
                                    get_u8-ok bytes x1.0 x1.1 f1
                                    ∙ ap₂ ◌∷◌ (sym ((==_iff 1 x1.0).0 version)) (
                                        get_u8-ok x1.1 x2.0 x2.1 f2
                                        ∙ ap₂ ◌∷◌ (response_flags_from_bits-ok x2.0 flag f3) (
                                            s3
                                            ∙ ap (◌++◌ kind_bytes) (
                                                s4
                                                ∙ ap (◌++◌ x4.0) (
                                                    s5
                                                    ∙ ap (◌++◌ x5.0) (
                                                        s6
                                                        ∙ ap (◌++◌ x6.0) (
                                                            s7
                                                            ∙ ap (◌++◌ x7.0) (
                                                            s8
                                                            ∙ ap (◌++◌ x8.0) (
                                                            s9
                                                            ∙ ap (◌++◌ x9.0)
                                                            (s10 ∙ ap (◌++◌ x10.0) s11)))))))));
                                kind_size = l3;
                                kind_number = n3 ∙ sym (response_kind_from_u16-ok x3.0 kind f5);
                                size_size = l11;
                                size_number = n11;
                                key = l4;
                                commitment = l5;
                                sponsor = l6;
                                time = l7;
                                content = l8;
                                salted = l9;
                                signed = l10;
                              })))))))))))))))
