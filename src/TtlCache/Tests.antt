-- ===== src/TtlCache/Tests.antt =====
-- internal/ttlcache: runs on small caches, and each theorem at an input that meets its hypotheses.
use imagelet.Base.{
  ℕ, ◌≡◌, ◌⊎◌, ◌≢◌, refl, true, false, List, [], ◌∷◌, none, some, arith, ℕ_discrete as dec,
}
use imagelet.Base.Assoc.{lookup, insert, delete}
use imagelet.Base.Int.{pos}
use imagelet.Base.Order.{remove}
use imagelet.Recency
use imagelet.Recency.{view, empty}
use imagelet.TtlCache.{Entry, Cache, ok, fail, led, new, get, set, all, load, get_or_fetch}
use imagelet.TtlCache.Fetch
use imagelet.TtlCache.Fetch.{live_entry}
use imagelet.TtlCache.Invariant
use imagelet.TtlCache.Invariant.{IsValid}
use imagelet.TtlCache.Refinement
use imagelet.TtlCache.Refinement.{Call, seen, run, spec_run, spec_get, spec_set}
use imagelet.TtlCache.RoundTrip
use imagelet.TtlCache.RoundTrip.{or_else, IsRange}
use imagelet.TtlCache.SaveFile
use imagelet.TtlCache.SaveFile.{Disk, Faults, absent, file, symlink, save_json_file}
use imagelet.TtlCache.Snapshot
use imagelet.TtlCache.Snapshot.{save_json, load_json, load_entries}

program : Unit {0}
unfolding Recency.touch Recency.evict Recency.put lookup insert delete remove new get set all load
    get_or_fetch run spec_run spec_get spec_set save_json load_json dec
program = tt

abbrev until : ℕ → ℕ → Entry ℕ
until v t = record { value = v; found = true; expires_at = t }

-- room for two entries: 2 was used last
abbrev two : Cache ℕ ℕ
two = record {
  capacity = 2;
  store = record { items = (1, until 10 100) ∷ (2, until 20 200) ∷ []; lru = 2 ∷ 1 ∷ [] };
}

abbrev start : Cache ℕ ℕ
start = record { capacity = 2; store = empty }

start-IsValid : IsValid dec start
unfolding program
start-IsValid = Invariant.new-IsValid dec (pos 2)

built : two ≡ set dec 2 (until 20 200) (set dec 1 (until 10 100) start)
unfolding program
built = refl

two-IsValid : IsValid dec two
two-IsValid = rw built (Invariant.set-IsValid dec 2 _ (Invariant.set-IsValid dec 1 _ start-IsValid))

evicts_oldest : (set dec 3 (until 30 300) two).store.lru ≡ 3 ∷ 2 ∷ []
unfolding program
evicts_oldest = refl

expired_stays : get dec 1 100 two ≡ (two, none)
unfolding program
expired_stays = refl

abbrev calls : List (Call ℕ ℕ ℕ)
calls = Call.get 1 50 ∷ Call.set 3 (until 30 0) ∷ Call.fetch 2 60 70 (led 71 80 (ok 21 false)) ∷ []

view-run_example : seen dec (run dec calls two) ≡ spec_run dec 2 calls (view dec two.store)
view-run_example = Refinement.view-run dec calls two-IsValid

run-IsValid_example : IsValid dec (run dec calls two).0
run-IsValid_example = Refinement.run-IsValid dec calls two-IsValid

get_or_fetch_again_example :
    (get_or_fetch dec {E = ℕ} 1 60 150
      (led 0 0 (fail 7))
      (get_or_fetch dec {E = ℕ} 1 60 100 (led 101 102 (ok 11 false)) two).0).1
    ≡ ok 11 false
unfolding lookup dec
get_or_fetch_again_example =
    Fetch.get_or_fetch_again dec 1 60 60 100 101 102 150 11 false (led 0 0 (fail 7)) two-IsValid
      (omega arith) refl (omega arith)

same_order : IsRange dec (λ (m : List (ℕ × Entry ℕ)). m)
same_order = record { distinct = λ m d. d; same = λ m k d. refl }

load_json-save_json_example :
    (d : Cache ℕ ℕ) × (load_json dec 150 (some (save_json dec (λ m. m) 120 121 two)) 400 start
      ≡ Snapshot.loaded d)
    × ((q : ℕ)
        → lookup dec q d.store.items
          ≡ or_else
              (live_entry 150 (lookup dec q two.store.items))
              (lookup dec q start.store.items))
unfolding program
load_json-save_json_example =
    RoundTrip.load_json-save_json dec (λ m. m) 120 121 150 400 same_order two-IsValid start-IsValid
      (omega arith) (omega arith) (omega arith)

abbrev no_fault : Faults
no_fault = record {
  mkdir = false;
  open_tmp = false;
  encode = false;
  close = false;
  lstat = false;
  rename = false;
  remove = false;
}

abbrev old : Disk ℕ
old = record { target = file 1; tmp = absent }

save_json_file-atomic_example :
    (((save_json_file no_fault 0 2 old).1 ≡ none)
      × ((save_json_file no_fault 0 2 old).0 ≡ record { target = file 2; tmp = absent })
      × (old.target ≢ symlink))
    ⊎ (((save_json_file no_fault 0 2 old).1 ≢ none)
        × ((save_json_file no_fault 0 2 old).0.target ≡ old.target))
save_json_file-atomic_example = SaveFile.save_json_file-atomic no_fault 0 2 old
