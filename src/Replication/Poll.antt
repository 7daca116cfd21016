-- ===== src/Replication/Poll.antt =====
-- `Replicator::remoteSequence` and the whole loop `Replicator::poll` of src/Replicator.cpp.
pub mod Laws
use osmpgsqlimport.Prelude.{
  ℕ, Bool, true, false, List, [], ◌∷◌, ◌&&◌, leb, if◌then◌else◌, Option, none, some, Bytes, codes,
}
use osmpgsqlimport.Db.Copy.{strip_prefix}
use osmpgsqlimport.Replication.{Replica, poll_round}

-- `ReplicationGranularity`
pub data Granularity : Type 0 where
  minute hour day : Granularity

-- `baseUrl`
unfoldable pub base_url : Granularity → Bytes
base_url Granularity.minute = codes "https://planet.openstreetmap.org/replication/minute"
base_url Granularity.hour = codes "https://planet.openstreetmap.org/replication/hour"
base_url Granularity.day = codes "https://planet.openstreetmap.org/replication/day"

abbrev pub sequence_key : Bytes
sequence_key = codes "sequenceNumber="

-- The loop of `remoteSequence` over the lines of state.txt. `std::stoll` is a parameter, and `none` an
-- exception.
unfoldable pub find_sequence : (Bytes → Option ℕ) → List Bytes → Option ℕ
find_sequence stoll [] = none
find_sequence stoll (line ∷ lines) = elim (strip_prefix sequence_key line) [
  | some rest ↦ stoll rest
  | none ↦ find_sequence stoll lines
]

-- `remoteSequence`: the lines of the file, if it can be downloaded.
unfoldable pub remote_sequence : (Bytes → Option ℕ) → Option (List Bytes) → Option ℕ
unfolding find_sequence
remote_sequence stoll none = none
remote_sequence stoll (some lines) = find_sequence stoll lines

-- The row of `osm_replication_state`, `none` where `getReplicationSequence` gives -1, and what the files
-- change.
pub record Poller {ℓ} (S : Type ℓ) : Type ℓ where
  pub sequence : Option ℕ
  pub state : S

-- What a round of the loop meets: Ctrl+C before it, and the file state.txt.
pub record Round : Type 0 where
  pub interrupted : Bool
  pub state_file : Option (List Bytes)

module _ {ℓ} {S : Type ℓ} (stoll : Bytes → Option ℕ) (download : ℕ → Bool)
    (apply_file : ℕ → S → S × Bool) (stopped : ℕ → Bool) where
  abbrev pub stored : Replica S → Poller S
  stored r = record { sequence = some r.sequence; state = r.state }

  -- The round with a local and a remote number: what is stored then, and whether the loop goes on. It ends
  -- before the remote number only by an error or Ctrl+C, and both have set `g_stop`.
  unfoldable pub caught_up : ℕ → ℕ → S → Poller S × Bool
  caught_up remote local s =
      let (r, fine) =
        poll_round download apply_file stopped remote (record { sequence = local; state = s }) in
      (stored r, fine && leb remote r.sequence)

  -- `poll`, as long as it is watched. Each sequence number is downloaded at most once, so `download`,
  -- `apply_file` and `stopped` need not depend on the round. A round whose state.txt cannot be had is
  -- repeated; without a local number the loop ends.
  unfoldable pub poll : List Round → Poller S → Poller S
  poll [] p = p
  poll (r ∷ rounds) p = elim r.interrupted [
    | true ↦ p
    | false ↦ elim (remote_sequence stoll r.state_file) [
      | none ↦ poll rounds p
      | some remote ↦ elim p.sequence [
        | none ↦ p
        | some local ↦
            let (q, goes_on) = caught_up remote local p.state in
            elim goes_on [ true ↦ poll rounds q | false ↦ q ]
      ]
    ]
  ]
