-- ===== src/TtlCache/Snapshot.antt =====
-- internal/ttlcache/snapshot.go: `SaveJSON` and `LoadJSON`. The JSON text itself is not modelled: a
-- snapshot is the value that the encoder is given and the decoder returns. Go's map order is the
-- argument `range`.
use imagelet.Base.{
  ℕ, ◌+◌, ◌-◌, ◌*◌, ◌^◌, Bool, List, [], ◌∷◌, Option, none, some, map, leb, ◌==◌, if◌then◌else◌,
  not,
}
use imagelet.TtlCache.{Entry, Cache, is_live, set, all}

abbrev pub snapshot_schema : ℕ
snapshot_schema = 1

-- 64 << 20
abbrev pub max_snapshot_bytes : ℕ
max_snapshot_bytes = 64 * 2 ^ 20

pub record SnapshotEntry (K V : Type 0) : Type 0 where
  pub key : K
  pub value : V
  pub found : Bool
  pub expires_at : ℕ

pub record Snapshot (K V : Type 0) : Type 0 where
  pub schema : ℕ
  pub saved_at : ℕ
  pub entries : List (SnapshotEntry K V)

pub data LoadError : Type 0 where
  schema_mismatch snapshot_too_large decode_failed : LoadError

pub data Loaded (K V : Type 0) : Type 0 where
  loaded : Cache K V → Loaded K V
  refused : LoadError → Loaded K V

abbrev pub to_snapshot_entry : {K V : Type 0} → K × Entry V → SnapshotEntry K V
to_snapshot_entry (k, e) = record {
  key = k;
  value = e.value;
  found = e.found;
  expires_at = e.expires_at;
}

abbrev pub to_entry : {K V : Type 0} → SnapshotEntry K V → Entry V
to_entry s = record { value = s.value; found = s.found; expires_at = s.expires_at }

module _ {K V : Type 0} (dec : Discrete K) where
  -- `read` is the clock of `All`, `saved_at` that of the envelope.
  unfoldable pub save_json :
      (List (K × Entry V) → List (K × Entry V)) → ℕ → ℕ → Cache K V → Snapshot K V
  save_json range read saved_at c = record {
    schema = snapshot_schema;
    saved_at = saved_at;
    entries = map to_snapshot_entry (range (all dec read c));
  }

  -- the loop of `LoadJSON`
  unfoldable pub load_entries : ℕ → List (SnapshotEntry K V) → Cache K V → Cache K V
  load_entries now [] c = c
  load_entries now (s ∷ l) c =
      load_entries now l
        (if not (is_live now (to_entry s)) then c else set dec s.key (to_entry s) c)

  -- `decoded` is what the decoder returned, `consumed` how many bytes it had read by then; `left`
  -- is the reader's `N`.
  unfoldable pub load_json : ℕ → Option (Snapshot K V) → ℕ → Cache K V → Loaded K V
  unfolding load_entries
  load_json now decoded consumed c =
      let left = max_snapshot_bytes + 1 - consumed in
      elim decoded [
        | none ↦ if leb left 0 then refused snapshot_too_large else refused decode_failed
        | some snap ↦
            if leb left 0
            then refused snapshot_too_large
            else if not (snap.schema == snapshot_schema)
            then refused schema_mismatch
            else loaded (load_entries now snap.entries c)
      ]
