-- ===== src/Payments/Client/Endpoint.antt =====
-- The record that is dialled.
use rd_shop_backend.Base.{
  ◌≡◌, refl, ltb, ap, ◌∙◌, Bool, true, false, not, ◌&&◌, ◌||◌, ◌==◌, List, [], ◌∷◌, ◌++◌, arith,
  all, Bool-cases, inl, inr,
}
use rd_shop_backend.Payments.Client.{
  SrvRecord, records, GrpcConfig, compare_srv_records, is_negative, insert_record, sort_records,
  url_of, resolve_payments_grpc_url,
}

-- A lower priority, or the same priority and a higher weight
abbrev pub beats : SrvRecord → SrvRecord → Bool
beats a b = ltb a.priority b.priority || (a.priority == b.priority) && ltb b.weight a.weight

compare_srv_records-beats : (a b : SrvRecord) → is_negative (compare_srv_records a b) ≡ beats a b
unfolding compare_srv_records
compare_srv_records-beats a b = ground arith

beats_trans : (a b c : SrvRecord) → beats a b ≡ true → beats b c ≡ true → beats a c ≡ true
beats_trans a b c h k = ground arith

unbeaten_trans : (a b c : SrvRecord) → beats a b ≡ false → beats b c ≡ false → beats a c ≡ false
unbeaten_trans a b c h k = ground arith

unbeaten_self : (a : SrvRecord) → beats a a ≡ false
unbeaten_self a = ground arith

-- The first of the records that no other one beats
pub record Chosen (rs : List SrvRecord) : Type 0 where
  pub before : List SrvRecord
  pub chosen : SrvRecord
  pub after : List SrvRecord
  pub split : rs ≡ before ++ chosen ∷ after
  pub worse : all (beats chosen) before ≡ true
  pub no_better : all (λ x. not (beats x chosen)) after ≡ true

unbeaten_all :
    (r c : SrvRecord) (xs : List SrvRecord)
    → beats c r ≡ false
    → all (λ x. not (beats x c)) xs ≡ true
    → all (λ x. not (beats x r)) xs ≡ true
unbeaten_all r c [] h k = refl
unbeaten_all r c (x ∷ xs) h k = ground (arith, unbeaten_trans x c r, unbeaten_all r c xs h)

unbeaten_split :
    (r c : SrvRecord) (xs ys : List SrvRecord)
    → beats c r ≡ false
    → all (beats c) xs ≡ true
    → all (λ x. not (beats x c)) ys ≡ true
    → all (λ x. not (beats x r)) (xs ++ c ∷ ys) ≡ true
unbeaten_split r c [] ys h k l = ground (arith, unbeaten_all r c ys h l)
unbeaten_split r c (x ∷ xs) ys h k l = ground (arith, beats_trans c x r, unbeaten_split r c xs ys h)

-- What the sort puts first
sort_records-Chosen :
    (r : SrvRecord) (rs : List SrvRecord)
    → (c : Chosen (r ∷ rs)) × (others : List SrvRecord) × (sort_records (r ∷ rs)
        ≡ c.chosen ∷ others)
unfolding sort_records insert_record
sort_records-Chosen r [] = (
  record { before = []; chosen = r; after = []; split = refl; worse = refl; no_better = refl },
  [],
  refl,
)
sort_records-Chosen r (x ∷ rs) =
    let (c, others, sorted) = sort_records-Chosen x rs in
    elim (Bool-cases (beats c.chosen r)) [
      | inl e ↦ (
        record {
          before = r ∷ c.before;
          chosen = c.chosen;
          after = c.after;
          split = ground (arith, c.split);
          worse = ground (arith, e, c.worse);
          no_better = c.no_better;
        },
        insert_record r others,
        ground (arith, e, sorted, compare_srv_records-beats c.chosen r),
      )
      | inr e ↦ (
        record {
          before = [];
          chosen = r;
          after = x ∷ rs;
          split = refl;
          worse = refl;
          no_better =
              ap (all (λ y. not (beats y r))) c.split
              ∙ unbeaten_split r c.chosen c.before c.after e c.worse c.no_better;
        },
        c.chosen ∷ others,
        ground (arith, e, sorted, compare_srv_records-beats c.chosen r),
      )
    ]

-- Of the records of an answer, the first is dialled of those with the lowest priority and among these
-- the highest weight: every earlier record is worse than it, and no later one is better.
pub resolve_payments_grpc_url-Chosen :
    (config : GrpcConfig) (r : SrvRecord) (rs : List SrvRecord)
    → (c : Chosen (r ∷ rs)) × (resolve_payments_grpc_url config (records (r ∷ rs))
        ≡ url_of config c.chosen)
unfolding resolve_payments_grpc_url
resolve_payments_grpc_url-Chosen config r rs =
    let (c, others, sorted) = sort_records-Chosen r rs in (c, ground (arith, sorted))
