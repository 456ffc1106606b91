-- ===== src/Commands/Sets/Intersection.antt =====
-- SINTER against the sets that the database holds.
use druta_db.Prelude.{
  ◌≡◌, refl, sym, ap, subst, ◌∙◌, inl, inr, Bool, Bool-cases, true, false, ◌&&◌, ◌||◌, ◌==◌, Option,
  none, some, List, [], ◌∷◌, arith, length, Bytes, bytes_key, Result, Returns,
}
use druta_db.Ordered.Set
use druta_db.Store.{Store, and_then, pure}
use druta_db.Lru.Chain.{Item}
use druta_db.Lru.Holds.{Shape}
use druta_db.Commands.Replies.{wrong_type}
use druta_db.Commands.Sets.{
  Operand, missing, wrong, members, common_members, inter_operand, inter_loop, inter_reply,
  inter_from, command_sinter,
}
use druta_db.Commands.Sets.Members.{contains-common_members}
use druta_db.Commands.Sets.Operands.{operand_at, has_member, operand-ok, two_or_more}

-- Every key holds a set with this member.
unfoldable pub in_all : List Item → List Bytes → Bytes → Bool
in_all xs [] x = true
in_all xs (key ∷ keys) x = has_member (operand_at xs key) x && in_all xs keys x

abbrev is_wrong : Operand → Bool
is_wrong wrong = true
is_wrong o = false

-- Some key holds another type.
unfoldable pub any_wrong : List Item → List Bytes → Bool
any_wrong xs [] = false
any_wrong xs (key ∷ keys) = is_wrong (operand_at xs key) || any_wrong xs keys

-- What SINTER may come to: an error if some key holds another type, or the members of `t` that are
-- in the set at every key.
abbrev pub IsIntersection : List Item → List Bytes → List Bytes → Option (List Bytes) → Type 0
IsIntersection xs t keys none = any_wrong xs keys ≡ true
IsIntersection xs t keys (some u) =
    (x : Bytes) → Set.contains u x ≡ (Set.contains t x && in_all xs keys x)

abbrev pub IsCommon : List Item → List Bytes → Option (List Bytes) → Type 0
IsCommon xs keys none = any_wrong xs keys ≡ true
IsCommon xs keys (some u) = (x : Bytes) → Set.contains u x ≡ in_all xs keys x

abbrev pub IsReply : List Item → List Bytes → Bytes → Type 0
IsReply xs keys reply = (r : Option (List Bytes)) × (reply ≡ inter_reply r) × IsCommon xs keys r

no_members : (u : List Bytes) (x : Bytes) → length u == 0 ≡ true → Set.contains u x ≡ false
unfolding Set.contains
no_members [] x e = refl
no_members (y ∷ u) x e = absurd (ground arith)

module _ (s : Store) (xs : List Item) (h : Shape s xs) where
  abbrev after :
      List Bytes → Option (List Bytes × Bool) → Store → Result (Option (List Bytes) × Store)
  after keys o = elim o as (λ o. Store → Result (Option (List Bytes) × Store)) [
    | none ↦ pure none
    | some (next, go_on) ↦ elim go_on as (λ g. Store → Result (Option (List Bytes) × Store)) [
      | true ↦ inter_loop next keys
      | false ↦ pure (some next)
    ]
  ]

  inter_step :
      (t : List Bytes) (key : Bytes) (keys : List Bytes)
      → inter_loop t (key ∷ keys) s ≡ after keys (inter_operand t (operand_at xs key)) s
  unfolding inter_loop
  inter_step t key keys =
      ap (λ r. and_then r (λ o. after keys (inter_operand t o))) (operand-ok s xs key h)

  abbrev Intersects : List Bytes → List Bytes → Result (Option (List Bytes) × Store) → Type 0
  Intersects t keys r = Returns r (λ a. (a.1 ≡ s) × IsIntersection xs t keys a.0)

  -- One round, on what the key is.
  inter_round :
      (t : List Bytes) (key : Bytes) (keys : List Bytes) (o : Operand)
      → operand_at xs key ≡ o
      → ((u : List Bytes) → Intersects u keys (inter_loop u keys s))
      → Intersects t (key ∷ keys) (after keys (inter_operand t o) s)
  unfolding inter_operand in_all any_wrong
  inter_round t key keys missing e later =
      ((some [], s), refl, (refl, λ x. rw e (unfold Set.contains in ground arith)))
  inter_round t key keys wrong e later = ((none, s), refl, (refl, rw e))
  inter_round t key keys (members u) e later =
      let next = common_members [] t u in
      let c : (x : Bytes) → Set.contains next x ≡ (Set.contains t x && Set.contains u x) =
        λ x. contains-common_members [] t u x ∙ (unfold Set.contains in refl) in
      elim (Bool-cases (length next == 0)) [
        | inl z ↦ rw z (
          (some next, s),
          refl,
          (refl, λ x. let n = no_members next x z in rw e (ground (arith, c x, n))),
        )
        | inr n ↦
            let (r, run, (f, g)) = later next in
            rw n (r, run, (f, continued t u key keys next r.0 e c g))
      ]
    where
      continued :
          (t u : List Bytes) (key : Bytes) (keys next : List Bytes) (r : Option (List Bytes))
          → operand_at xs key ≡ members u
          → ((x : Bytes) → Set.contains next x ≡ (Set.contains t x && Set.contains u x))
          → IsIntersection xs next keys r
          → IsIntersection xs t (key ∷ keys) r
      continued t u key keys next none e c g = rw (e, g)
      continued t u key keys next (some v) e c g = λ x. rw e (ground (arith, g x, c x))

  inter_loop-ok : (keys t : List Bytes) → Intersects t keys (inter_loop t keys s)
  inter_loop-ok [] t =
      ((some t, s), unfold inter_loop in refl, (refl, λ x. unfold in_all in ground arith))
  inter_loop-ok (key ∷ keys) t =
      let (r, run, d) =
        inter_round t key keys (operand_at xs key) refl (λ u. inter_loop-ok keys u) in
      (r, inter_step t key keys ∙ run, d)

  sinter-ok :
      (cmd key : Bytes) (keys : List Bytes) (o : Operand) (r : Result (Bytes × Store))
      → operand_at xs key ≡ o
      → inter_from keys o s ≡ r
      → command_sinter (cmd ∷ (key ∷ keys)) s ≡ r
  unfolding command_sinter
  sinter-ok cmd key keys o r e run = rw (two_or_more cmd key keys) (
      ap (λ q. and_then q (inter_from keys)) (operand-ok s xs key h)
      ∙ subst (λ o. inter_from keys o s ≡ r) (sym e) run)

  -- The first set and the others.
  first_set :
      (t : List Bytes) (key : Bytes) (keys : List Bytes) (r : Option (List Bytes))
      → ((x : Bytes) → has_member (operand_at xs key) x ≡ Set.contains t x)
      → IsIntersection xs t keys r
      → IsCommon xs (key ∷ keys) r
  unfolding in_all any_wrong
  first_set t key keys none e g = ground (arith, g)
  first_set t key keys (some u) e g = λ x. ground (arith, g x, e x)

  replied :
      (t : List Bytes) (key : Bytes) (keys : List Bytes)
      → ((x : Bytes) → has_member (operand_at xs key) x ≡ Set.contains t x)
      → Returns
          (and_then (inter_loop t keys s) (λ r. pure (inter_reply r)))
          (λ r. (r.1 ≡ s) × IsReply xs (key ∷ keys) r.0)
  replied t key keys e =
      let (r, run, (f, g)) = inter_loop-ok keys t in
      ((inter_reply r.0, r.1), rw run, (f, (r.0, refl, first_set t key keys r.0 e g)))

  sinter-IsReply :
      (cmd key : Bytes) (keys : List Bytes) (o : Operand)
      → operand_at xs key ≡ o
      → Returns
          (command_sinter (cmd ∷ (key ∷ keys)) s)
          (λ r. (r.1 ≡ s) × IsReply xs (key ∷ keys) r.0)
  sinter-IsReply cmd key keys missing e =
      let (r, run, d) = replied [] key keys (λ x. rw e (unfold Set.contains in refl)) in
      (r, sinter-ok cmd key keys missing _ e run, d)
  sinter-IsReply cmd key keys wrong e = (
    (wrong_type, s),
    sinter-ok cmd key keys wrong _ e refl,
    (refl, (none, refl, unfold any_wrong in rw e)),
  )
  sinter-IsReply cmd key keys (members t) e =
      let (r, run, d) = replied t key keys (λ x. rw e) in
      (r, sinter-ok cmd key keys (members t) _ e run, d)

  -- SINTER on a database whose nodes, index and list agree ends without a fault and changes
  -- nothing. Its reply is an error, only if some key holds another type, or exactly the members
  -- that the sets at all keys have; a key that is not there has none.
  pub command_sinter-IsReply :
      (cmd key : Bytes) (keys : List Bytes)
      → Returns
          (command_sinter (cmd ∷ (key ∷ keys)) s)
          (λ r. (r.1 ≡ s) × IsReply xs (key ∷ keys) r.0)
  command_sinter-IsReply cmd key keys = sinter-IsReply cmd key keys (operand_at xs key) refl
