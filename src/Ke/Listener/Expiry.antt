-- ===== src/Ke/Listener/Expiry.antt =====
-- src/nts_ke/server/listener.rs: tokens stay in their range, and deadlines in their order.
use cfnts.Base.{
  ℕ, ◌≤◌, List, [], ◌∷◌, Bool, true, false, Option, some, none, All, Outcome, Ensures, bind-Ensures,
  if-Ensures, map-Ensures, ltb, ltb_false→le, le→ltb_false, ◌==◌, if◌then◌else◌, Bool-cases, inl,
  inr, arith, ◌≡◌, refl, ◌∙◌,
}
use cfnts.Ke.Server.{KeServerConn, shutdown}
use cfnts.Ke.Listener.{
  connection_mio_token_id_min, connection_mio_token_id_max, remove, is_earlier, push,
  increment_next_conn_token_id, close_one, close_expired,
}

-- The next token after one in the range of the connections is in that range, so it is neither the
-- listener's nor the one that mio keeps for itself.
pub increment_next_conn_token_id_lem :
    (id : ℕ)
    → id ≤ connection_mio_token_id_max
    → (connection_mio_token_id_min ≤ increment_next_conn_token_id id)
      × (increment_next_conn_token_id id ≤ connection_mio_token_id_max)
unfolding increment_next_conn_token_id
increment_next_conn_token_id_lem id h = ground arith

-- The deadlines in order.
abbrev pub IsSorted : List (ℕ × ℕ) → Type 0
IsSorted [] = Unit {0}
IsSorted (d ∷ rest) = All (λ e. d.0 ≤ e.0) rest × IsSorted rest

-- Whether a token has a deadline before the time `now`.
abbrev pub expires : ℕ → List (ℕ × ℕ) → ℕ → Bool
expires now [] t = false
expires now (d ∷ rest) t =
    if ltb d.0 now then (if t == d.1 then true else expires now rest t) else expires now rest t

All-push :
    (bound : ℕ) (d : ℕ × ℕ) (ds : List (ℕ × ℕ))
    → bound ≤ d.0
    → All (λ e. bound ≤ e.0) ds
    → All (λ e. bound ≤ e.0) (push d ds)
unfolding push
All-push bound d [] h k = (h, tt)
All-push bound d (e ∷ rest) h (k, ks) = elim (Bool-cases (is_earlier e d)) [
  | inl before ↦ rw before (k, All-push bound d rest h ks)
  | inr behind ↦ rw behind (h, (k, ks))
]

All-weaken :
    (low high : ℕ) (ds : List (ℕ × ℕ))
    → low ≤ high
    → All (λ e. high ≤ e.0) ds
    → All (λ e. low ≤ e.0) ds
All-weaken low high [] h k = tt
All-weaken low high (d ∷ ds) h (k, ks) = (omega arith, All-weaken low high ds h ks)

is_earlier_le : (d e : ℕ × ℕ) → is_earlier d e ≡ true → d.0 ≤ e.0
unfolding is_earlier
is_earlier_le d e h = ground arith

is_earlier-false : (d e : ℕ × ℕ) → is_earlier d e ≡ false → e.0 ≤ d.0
unfolding is_earlier
is_earlier-false d e h = ground arith

pub push-IsSorted : (d : ℕ × ℕ) (ds : List (ℕ × ℕ)) → IsSorted ds → IsSorted (push d ds)
unfolding push
push-IsSorted d [] h = (tt, tt)
push-IsSorted d (e ∷ rest) (all, h) = elim (Bool-cases (is_earlier e d)) [
  | inl before ↦
      rw before (All-push e.0 d rest (is_earlier_le e d before) all, push-IsSorted d rest h)
  | inr behind ↦
      let le = is_earlier-false e d behind in
      rw behind ((le, All-weaken d.0 e.0 rest le all), (all, h))
]

none_expires : (now t : ℕ) (ds : List (ℕ × ℕ)) → All (λ e. now ≤ e.0) ds → expires now ds t ≡ false
none_expires now t [] h = refl
none_expires now t (d ∷ ds) (h, hs) = rw (le→ltb_false d.0 now h) (none_expires now t ds hs)

-- What is left when the expired connections are closed.
pub record Closed (now : ℕ) (ds : List (ℕ × ℕ)) (connections : ℕ → Option KeServerConn)
    (r : List (ℕ × ℕ) × (ℕ → Option KeServerConn)) : Type 0 where
  pub later : All (λ d. now ≤ d.0) r.0
  pub sorted : IsSorted r.0
  pub table : (t : ℕ) → r.1 t ≡ (if expires now ds t then none else connections t)

close_one-Ensures :
    {E A : Type 0} (P : A → Type 0) (shuts : Bool) (c : Option KeServerConn) (others : Outcome E A)
    → Ensures P others
    → Ensures P (close_one shuts c others)
unfolding close_one
close_one-Ensures P shuts none others h = h
close_one-Ensures {E = E} P shuts (some c) others h =
    bind-Ensures P (shutdown {E = E} shuts c) (λ c'. others) (λ c' _. h)

pub close_expired-Closed :
    (E : Type 0) (now : ℕ) (shuts : ℕ → Bool) (ds : List (ℕ × ℕ))
    (connections : ℕ → Option KeServerConn)
    → IsSorted ds
    → Ensures (Closed now ds connections) (close_expired {E = E} now shuts ds connections)
unfolding close_expired
close_expired-Closed E now shuts [] connections h = record {
  later = tt;
  sorted = tt;
  table = λ t. refl;
}
close_expired-Closed E now shuts (d ∷ rest) connections (all, h) =
    if-Ensures (Closed now (d ∷ rest) connections) (ltb d.0 now) _ _
      (λ early.
        close_one-Ensures (Closed now (d ∷ rest) connections) (shuts d.1) (connections d.1) _ (
          map-Ensures (Closed now rest (remove connections d.1)) (Closed now (d ∷ rest) connections)
            _
            (λ r k. record {
              later = k.later;
              sorted = k.sorted;
              table = λ t. k.table t ∙ removed t early;
            })
            (close_expired-Closed E now shuts rest (remove connections d.1) h)))
      (λ late.
        let le = ltb_false→le d.0 now late in
        let after : All (λ e. now ≤ e.0) (d ∷ rest) = (le, All-weaken now d.0 rest le all) in
        record {
          later = after;
          sorted = (all, h);
          table = λ t. rw (none_expires now t (d ∷ rest) after) refl;
        })
  where
    removed :
        (t : ℕ)
        → ltb d.0 now ≡ true
        → (if expires now rest t then none else remove connections d.1 t)
          ≡ (if expires now (d ∷ rest) t then none else connections t)
    removed t early = elim (Bool-cases (expires now rest t)) [
      | inl gone ↦ elim (Bool-cases (t == d.1)) [
        | inl same ↦ rw (gone, early, same) refl
        | inr other ↦ rw (gone, early, other) refl
      ]
      | inr stays ↦ elim (Bool-cases (t == d.1)) [
        | inl same ↦ rw (stays, early, same) refl
        | inr other ↦ rw (stays, early, other) refl
      ]
    ]
