-- ===== src/Commands/Sets/Tests.antt =====
-- Runs of the loops over sets with one and two members.
use druta_db.Prelude.{
  ◌≡◌, ◌<◌, ◌≤◌, ◌^◌, ◌++◌, ℕ, ℤ, pos, int_of_size, ltb, snoc, List, [], ◌∷◌, Bytes, bytes_key,
  before, cmp_bytes, refl, arith, same, Returns,
}
use druta_db.Text.{codes}
use druta_db.Text.Storage.{copy_capacity}
use druta_db.Ordered.Set
use druta_db.Value.{set}
use druta_db.Store.{Store}
use druta_db.Lru.{lru_max_memory}
use druta_db.Lru.Chain.{Item}
use druta_db.Lru.Change.{with_value, kept}
use druta_db.Lru.Holds.{Holds, total}
use druta_db.Lru.Tests.{second, placed, with_placed, placed-Holds}
use druta_db.Commands.Replies.{array_reply, integer_reply}
use druta_db.Commands.Strings.Entries.{find_entry}
use druta_db.Commands.Sets.Members.{Deleted}
use druta_db.Commands.Sets.Removals.{removed_usage, removed_value, command_sdel-there}
use druta_db.Commands.Sets.Operands.{
  kind_of, operand_at, in_any, Outcome, IsSortedOperand, command_sunion-members,
  command_sdiff-Outcome,
}
use druta_db.Commands.Sets.Intersection.{IsReply, command_sinter-IsReply}
use druta_db.Commands.Sets.{
  command_sunion, command_sdiff, command_sinter, del_members, command_sdel,
}

abbrev a : Bytes
a = codes "a"

abbrev b : Bytes
b = codes "b"

abbrev pair : List Bytes
pair = a ∷ b ∷ []

pair-IsSorted : Set.IsSorted pair
unfolding before cmp_bytes
pair-IsSorted = ((refl, tt), (tt, tt))

-- A database with this set at the key "a" and a string at "b".
abbrev entries : List Item
entries = placed (set pair) 222 ∷ second ∷ []

abbrev database : Store
database = with_placed (set pair) 222

database-Holds : Holds database entries
database-Holds = placed-Holds (set pair) 222 (omega arith)

command_sunion-members_example :
    Returns (command_sunion (codes "SUNION" ∷ a ∷ codes "c" ∷ []) database) (λ r.
      (t : List Bytes) × (r ≡ (array_reply t, database))
      × Set.IsSorted t
      × ((x : Bytes) → Set.contains t x ≡ in_any entries (a ∷ codes "c" ∷ []) x))
command_sunion-members_example =
    command_sunion-members database entries database-Holds.shape (codes "SUNION") a (codes "c" ∷ [])

pair-IsSortedOperand : IsSortedOperand (operand_at entries a)
unfolding operand_at find_entry kind_of same cmp_bytes
pair-IsSortedOperand = pair-IsSorted

command_sdiff-Outcome_example :
    Returns
      (command_sdiff (codes "SDIFF" ∷ a ∷ b ∷ []) database)
      (λ r. (r.1 ≡ database) × Outcome (operand_at entries a) (in_any entries (b ∷ [])) r.0)
command_sdiff-Outcome_example =
    command_sdiff-Outcome database entries database-Holds.shape (codes "SDIFF") a (b ∷ [])
      pair-IsSortedOperand

command_sinter-IsReply_example :
    Returns
      (command_sinter (codes "SINTER" ∷ a ∷ b ∷ []) database)
      (λ r. (r.1 ≡ database) × IsReply entries (a ∷ b ∷ []) r.0)
command_sinter-IsReply_example =
    command_sinter-IsReply database entries database-Holds.shape (codes "SINTER") a (b ∷ [])

-- SDEL a b
abbrev b_alone : List Bytes
b_alone = b ∷ []

abbrev removal : List Bytes × ℤ × ℕ
removal = del_members pair (pos 0) 0 b_alone

abbrev smaller : Item
smaller =
    with_value (placed (set pair) 222) (removed_value pair b_alone (placed (set pair) 222).value)

removal-small : removed_usage pair b_alone < 2 ^ 31
unfolding removed_usage Set.contains Set.erase same cmp_bytes copy_capacity
removal-small = omega arith

removal-charged : removed_usage pair b_alone ≤ 222
unfolding removed_usage Set.contains Set.erase same cmp_bytes copy_capacity
removal-charged = omega arith

smaller-room : total (smaller ∷ second ∷ []) ≤ lru_max_memory
unfolding removed_usage Set.contains Set.erase same cmp_bytes copy_capacity
smaller-room = omega arith

command_sdel-there_example : Returns (command_sdel (codes "SDEL" ∷ a ∷ b_alone) database) (λ r.
    (r.0 ≡ (integer_reply (int_of_size removal.2), ltb 0 removal.2))
    × Deleted pair 0 b_alone removal
    × Holds r.1 (snoc (kept [] (smaller ∷ second ∷ []) ++ (second ∷ [])) smaller))
command_sdel-there_example =
    command_sdel-there (codes "SDEL") b_alone pair database [] (placed (set pair) 222) (second ∷ [])
      database-Holds refl removal-small removal-charged smaller-room pair-IsSorted
