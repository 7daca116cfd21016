-- ===== src/Replication.antt =====
-- `Replicator` of src/Replicator.cpp: the path of a sequence number, and the files that `poll` applies
-- when the server is ahead.
pub mod Laws
pub mod Poll
use osmpgsqlimport.Prelude.{
  ℕ, zero, suc, ◌+◌, ◌-◌, ◌/◌, ◌%◌, Bool, true, false, not, ◌&&◌, List, [], ◌∷◌, ◌++◌, ltb, leb,
  if◌then◌else◌, Bytes,
}

-- A number in decimal digits, in front of those written already. One digit more than the number's is
-- enough fuel, and the number itself is more than that.
unfoldable pub decimal : ℕ → ℕ → Bytes → Bytes
decimal zero n digits = digits
decimal (suc fuel) n digits =
    let more = decimal fuel (n / 10) ((48 + n % 10) ∷ digits) in
    if ltb n 10 then (48 + n) ∷ digits else more

-- `std::setw(3) << std::setfill('0') << n`
unfoldable pub pad3 : ℕ → Bytes
pad3 n =
    if ltb n 1000
    then (48 + n / 100) ∷ (48 + n / 10 % 10) ∷ (48 + n % 10) ∷ []
    else decimal (n + 1) n []

abbrev pub slash : ℕ
slash = 47

-- `sequenceToPath`, for a sequence number that is not negative.
unfoldable pub sequence_to_path : ℕ → Bytes
sequence_to_path seq =
    pad3 (seq / 1000000) ++ slash ∷ pad3 (seq / 1000 % 1000) ++ slash ∷ pad3 (seq % 1000)

-- The stored sequence number, and all that applying a file changes.
pub record Replica {ℓ} (S : Type ℓ) : Type ℓ where
  pub sequence : ℕ
  pub state : S

-- Whether a file can be downloaded; what `applyFile` does, and whether it returns; whether Ctrl+C came
-- before the loop looks at a sequence number.
module _ {ℓ} {S : Type ℓ} (download : ℕ → Bool) (apply_file : ℕ → S → S × Bool)
    (stopped : ℕ → Bool) where
  -- `downloadAndApply`
  unfoldable pub download_and_apply : ℕ → Replica S → Replica S × Bool
  download_and_apply seq r =
      let (s, applied) = apply_file seq r.state in
      if download seq
      then if applied
        then (record { sequence = seq; state = s }, true)
        else (record { sequence = r.sequence; state = s }, false)
      else (r, false)

  -- The loop `for (seq = local + 1; seq <= remote && !g_stop; ++seq)` of `poll` over the numbers that are
  -- left. The flag is false if an error has stopped it.
  unfoldable pub apply_pending : ℕ → ℕ → Replica S → Replica S × Bool
  apply_pending zero seq r = (r, true)
  apply_pending (suc left) seq r =
      let (t, fine) = download_and_apply seq r in
      let rest = apply_pending left (seq + 1) t in
      if stopped seq then (r, true) else if fine then rest else (t, false)

  -- One round of `poll`, with the two numbers that it reads. The stored one is not negative.
  unfoldable pub poll_round : ℕ → Replica S → Replica S × Bool
  poll_round remote r =
      if leb remote r.sequence
      then (r, true)
      else apply_pending (remote - r.sequence) (r.sequence + 1) r
