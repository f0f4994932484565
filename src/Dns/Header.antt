-- ===== src/Dns/Header.antt =====
-- The header of the replies of crates/ne-dns-filter/src/lib.rs. What becomes of a byte is tried on
-- every byte.
use ne_enclave.Common.{
  ℕ, ◌/◌, ◌%◌, ◌≤◌, ◌<◌, Bool, true, ◌&&◌, ◌≡◌, refl, none, some, [], ◌∷◌, All, length, take, drop,
  arith, nat_eq, all_below, all_below_sound,
}
use ne_enclave.Dns.Wire.{Message, slice, response_flags, response_code, rcode_response}

-- QR is set, TC is clear, and the other six bits are those of the query.
abbrev flags_ok : ℕ → Bool
flags_ok b =
    nat_eq (response_flags b / 128) 1
    && nat_eq (response_flags b / 2 % 2) 0
    && nat_eq (response_flags b % 128 / 4) (b % 128 / 4)
    && nat_eq (response_flags b % 2) (b % 2)

flags_table : all_below 256 flags_ok ≡ true
unfolding all_below
flags_table = refl

-- The low four bits are the code, RA is clear, and the three bits between are those of the query.
abbrev code_ok : ℕ → ℕ → Bool
code_ok rcode b =
    nat_eq (response_code rcode b % 16) rcode && nat_eq (response_code rcode b / 16) (b / 16 % 8)

code_table : all_below 16 (λ rcode. all_below 256 (code_ok rcode)) ≡ true
unfolding all_below
code_table = refl

-- `resp` answers `query` with the code `rcode`, `f` and `c` being the query's two bytes of flags and
-- `f'` and `c'` those of the answer.
pub record Answers (query resp : Message) (rcode : ℕ) : Type 0 where
  pub same_length : length resp ≡ length query
  pub same_id : take 2 resp ≡ take 2 query
  pub same_qdcount : slice resp 4 2 ≡ slice query 4 2
  pub no_records : slice resp 6 6 ≡ 0 ∷ 0 ∷ 0 ∷ 0 ∷ 0 ∷ 0 ∷ []
  pub same_body : drop 12 resp ≡ drop 12 query
  pub f : ℕ
  pub c : ℕ
  pub f' : ℕ
  pub c' : ℕ
  pub query_flags : slice query 2 2 ≡ f ∷ c ∷ []
  pub resp_flags : slice resp 2 2 ≡ f' ∷ c' ∷ []
  pub is_response : f' / 128 ≡ 1
  pub not_truncated : f' / 2 % 2 ≡ 0
  pub same_opcode : f' % 128 / 4 ≡ f % 128 / 4
  pub same_recursion_desired : f' % 2 ≡ f % 2
  pub code : c' % 16 ≡ rcode
  pub no_recursion : c' / 16 ≡ c / 16 % 8

-- A query of at least twelve bytes, each below 256, is answered with a code below 16 by a message of its length, with its id, its opcode
-- and RD, its question count and everything behind the header; QR is set, TC and RA are clear, the
-- response code is the one asked for and the three other counts are zero.
pub rcode_response-Answers :
    (query : Message) (rcode : ℕ)
    → All (λ b. b < 256) query
    → rcode < 16
    → 12 ≤ length query
    → (resp : Message) × (rcode_response query rcode ≡ some resp) × Answers query resp rcode
unfolding rcode_response
rcode_response-Answers (i0 ∷ i1 ∷ f ∷ c ∷ q0 ∷ q1 ∷ a0 ∷ a1 ∷ n0 ∷ n1 ∷ r0 ∷ r1 ∷ rest) rcode bytes
      small long =
    let flags = all_below_sound 256 flags_ok f flags_table bytes.1.1.0 in
    let codes =
      all_below_sound 256 (code_ok rcode) c
        (all_below_sound 16 (λ r. all_below 256 (code_ok r)) rcode code_table small)
        bytes.1.1.1.0 in
    (
      _,
      refl,
      record {
        same_length = refl;
        same_id = refl;
        same_qdcount = refl;
        no_records = refl;
        same_body = refl;
        f = f;
        c = c;
        f' = response_flags f;
        c' = response_code rcode c;
        query_flags = refl;
        resp_flags = refl;
        is_response = ground arith;
        not_truncated = ground arith;
        same_opcode = ground arith;
        same_recursion_desired = ground arith;
        code = ground arith;
        no_recursion = ground arith;
      },
    )
rcode_response-Answers _ rcode bytes small long = absurd (omega arith)

-- A shorter message has no answer.
pub rcode_response_short :
    (query : Message) (rcode : ℕ) → length query < 12 → rcode_response query rcode ≡ none
unfolding rcode_response
rcode_response_short (i0 ∷ i1 ∷ f ∷ c ∷ q0 ∷ q1 ∷ a0 ∷ a1 ∷ n0 ∷ n1 ∷ r0 ∷ r1 ∷ rest) rcode short =
    absurd (omega arith)
rcode_response_short _ rcode short = refl
