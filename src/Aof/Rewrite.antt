-- ===== src/Aof/Rewrite.antt =====
-- The rewrite of the file against the list of entries that the database holds.
use druta_db.Prelude.{
  ℕ, zero, suc, ◌<◌, ◌^◌, ◌≡◌, refl, sym, ap, subst, ◌∙◌, inl, inr, Bool, true, false, ◌&&◌, Option,
  none, some, List, [], ◌∷◌, ◌++◌, arith, length, append-nil, append_assoc, ltb_ℤ, if◌then◌else◌,
  Bool-cases, Bytes, ℤ, pos, ok, fault, Result,
}
use druta_db.Parser.Stream.{format_all}
use druta_db.Store.{Ptr, null, Store}
use druta_db.Lru.Chain.{Item, node_of, first_or, has, Seg, not_has-cons, ==_comm}
use druta_db.Lru.Steps.{load-ok}
use druta_db.Lru.Holds.{Shape}
use druta_db.Aof.{Aof, value_command, format_option, node_text, rewrite_walk, rewrite_aof}

-- An entry that the rewrite leaves out because its time is over.
abbrev pub is_over : ℤ → Item → Bool
is_over now i = ltb_ℤ (pos 0) i.value.expiry_time && ltb_ℤ i.value.expiry_time now

-- The command that makes an entry again, if it is written.
unfoldable pub entry_command : ℤ → Item → Option (List Bytes)
entry_command now i =
    if is_over now i then none else value_command i.key i.value.data_ i.value.expiry_time

abbrev pub with_command : Option (List Bytes) → List (List Bytes) → List (List Bytes)
with_command none cmds = cmds
with_command (some c) cmds = c ∷ cmds

-- The commands of the entries, the least recently used one first.
unfoldable pub entry_commands : ℤ → List Item → List (List Bytes)
entry_commands now [] = []
entry_commands now (i ∷ xs) = with_command (entry_command now i) (entry_commands now xs)

format_option-format :
    (o : Option (List Bytes)) (cmds : List (List Bytes))
    → format_option o ++ format_all cmds ≡ format_all (with_command o cmds)
unfolding format_option format_all
format_option-format none cmds = refl
format_option-format (some c) cmds = refl

node_text-format :
    (now : ℤ) (i : Item) (pv nx : Ptr) (cmds : List (List Bytes))
    → node_text now (node_of i pv nx) ++ format_all cmds
      ≡ format_all (with_command (entry_command now i) cmds)
unfolding node_text entry_command
node_text-format now i pv nx cmds = elim (Bool-cases (is_over now i)) [
  | inl e ↦ rw e
  | inr n ↦ rw n (format_option-format (value_command i.key i.value.data_ i.value.expiry_time) cmds)
]

module _ (now : ℤ) (s : Store) where
  walk-ok :
      (fuel : ℕ) (pv : Ptr) (xs : List Item) (temp : Bytes)
      → length xs < fuel
      → has null xs ≡ false
      → Seg s.nodes pv xs null
      → rewrite_walk fuel now (first_or null xs) temp s
        ≡ ok (temp ++ format_all (entry_commands now xs), s)
  unfolding rewrite_walk entry_commands format_all
  walk-ok zero pv xs temp h n g = absurd (omega arith)
  walk-ok (suc fuel) pv [] temp h n g = ap (λ t. ok (t, s)) (sym (append-nil temp))
  walk-ok (suc fuel) pv (i ∷ xs) temp h n g =
      let o = not_has-cons null i xs n in
      let ne = ==_comm i.at null ∙ o.0 in
      let node = node_of i pv (first_or null xs) in
      rw (rewrite_walk, ne, load-ok i.at s node g.0)
        (walk-ok fuel i.at xs (temp ++ node_text now node) (omega arith) o.1 g.1
          ∙ ap (λ t. ok (t, s))
              (append_assoc temp (node_text now node) (format_all (entry_commands now xs))
                ∙ ap (λ t. temp ++ t)
                    (node_text-format now i pv (first_or null xs) (entry_commands now xs))))

-- The new file: these commands, and its length as the base of the next rewrite.
abbrev pub rewritten : List (List Bytes) → Aof
rewritten cmds = record {
  is_open = true;
  text = format_all cmds;
  last_rewrite_size = length (format_all cmds);
}

-- The rewrite of a database whose nodes, index and list agree, with fewer than 2^64 entries, ends
-- without a fault. The new file is the text of one command
-- for each entry whose time is not over and that is not empty, from the least to the most recently
-- used one, and its length is the base of the next rewrite.
pub rewrite_aof-commands :
    (now : ℤ) (s : Store) (xs : List Item) (aof : Aof)
    → Shape s xs
    → length xs < 2 ^ 64
    → rewrite_aof now s aof ≡ ok (rewritten (entry_commands now xs))
unfolding rewrite_aof
rewrite_aof-commands now s xs aof h fits =
    ap
      (λ r. elim r as (λ r. Result Aof) [
        | fault e ↦ fault e
        | ok (text, s') ↦
            ok (record { is_open = true; text = text; last_rewrite_size = length text })
      ])
      (subst
        (λ p. rewrite_walk (suc s.lru_size) now p [] s ≡ ok (format_all (entry_commands now xs), s))
        (sym h.links.tail)
        (walk-ok now s (suc s.lru_size) null xs [] (omega (arith, h.counted)) h.links.nonnull
          h.links.seg))
