-- ===== src/Leads/Blocked.antt =====
-- A block on a phone or an address (lib/db/queries/lead-market.ts) refuses a lead that comes under
-- the same key (lib/leads/rules.ts) until it runs out, and is never shortened.
use directory_platform.Common.{
  ℕ, ◌<◌, ◌≡◌, refl, arith, Bool, true, false, ◌&&◌, ◌||◌, Option, none, some, List, [], ◌∷◌,
  ==_self, ltb, if◌then◌else◌, any, update,
}
use directory_platform.Leads.{RefundReason}
use directory_platform.Leads.Rows.{BlockKind, by_phone, by_email, BlockRow}
use directory_platform.Leads.Refunds.{same_kind, later_expiry, same_key, extended, block}
use directory_platform.Leads.Consistent.{or_right}
use directory_platform.Leads.Create.{still_blocks, blocks}

module _ {A : Type 0} (q : A → Bool) where
  any-update :
      (p : A → Bool) (f : A → A) (xs : List A)
      → ((x : A) → q x ≡ true → q (f x) ≡ true)
      → any q xs ≡ true
      → any q (update p f xs) ≡ true
  any-update p f [] k h = h
  any-update p f (x ∷ xs) k h = by_test (p x) (q x) refl (any-update p f xs k) h
    where
      by_test :
          (b c : Bool)
          → q x ≡ c
          → (any q xs ≡ true → any q (update p f xs) ≡ true)
          → (c || any q xs) ≡ true
          → (q (if b then f x else x) || any q (update p f xs)) ≡ true
      by_test true true e ih h = rw (k x e) refl
      by_test false true e ih h = rw e refl
      by_test b false e ih h = or_right _ _ (ih h)

  any_updated :
      (p : A → Bool) (f : A → A) (xs : List A)
      → ((x : A) → p x ≡ true → q (f x) ≡ true)
      → any p xs ≡ true
      → any q (update p f xs) ≡ true
  any_updated p f [] k h = cc
  any_updated p f (x ∷ xs) k h = by_test (p x) refl (any_updated p f xs k) h
    where
      by_test :
          (b : Bool)
          → p x ≡ b
          → (any p xs ≡ true → any q (update p f xs) ≡ true)
          → (b || any p xs) ≡ true
          → (q (if b then f x else x) || any q (update p f xs)) ≡ true
      by_test true e ih h = rw (k x e) refl
      by_test false e ih h = or_right _ _ (ih h)

  pub any_weaken :
      (p : A → Bool) (xs : List A)
      → ((x : A) → p x ≡ true → q x ≡ true)
      → any p xs ≡ true
      → any q xs ≡ true
  any_weaken p [] k h = cc
  any_weaken p (x ∷ xs) k h = by_test (p x) refl (any_weaken p xs k) h
    where
      by_test :
          (b : Bool)
          → p x ≡ b
          → (any p xs ≡ true → any q xs ≡ true)
          → (b || any p xs) ≡ true
          → (q x || any q xs) ≡ true
      by_test true e ih h = rw (k x e) refl
      by_test false e ih h = or_right _ _ (ih h)

-- The key is blocked at that time.
abbrev pub holds_key : ℕ → BlockKind → ℕ → BlockRow → Bool
holds_key later kind value b = blocks kind value b && still_blocks later b

abbrev pub BlocksAt : ℕ → BlockKind → ℕ → List BlockRow → Type 0
BlocksAt later kind value rows = any (holds_key later kind value) rows ≡ true

-- An extension never shortens a block, and lasts until its own end.
later_keeps :
    (o : Option ℕ) (later until : ℕ)
    → (elim o [ none ↦ true | some t ↦ ltb later t ]) ≡ true
    → (elim (later_expiry o until) [ none ↦ true | some t ↦ ltb later t ]) ≡ true
later_keeps none later until h = refl
later_keeps (some t) later until h = ground arith

later_lasts :
    (o : Option ℕ) (later until : ℕ)
    → later < until
    → (elim (later_expiry o until) [ none ↦ true | some t ↦ ltb later t ]) ≡ true
later_lasts none later until h = refl
later_lasts (some t) later until h = ground arith

before_end : (later until : ℕ) → later < until → ltb later until ≡ true
before_end later until h = ground arith

pub split_and : (a b : Bool) → (a && b) ≡ true → (a ≡ true) × (b ≡ true)
split_and a b h = ground arith

join_and : (a b : Bool) → a ≡ true → b ≡ true → (a && b) ≡ true
join_and a b h k = ground arith

same_kind_self : (k : BlockKind) → same_kind k k ≡ true
same_kind_self by_phone = refl
same_kind_self by_email = refl

module _ (reason : RefundReason) (lead_id until later : ℕ) where
  holds_extended :
      (kind : BlockKind) (value : ℕ) (b : BlockRow)
      → holds_key later kind value b ≡ true
      → holds_key later kind value (extended reason lead_id until b) ≡ true
  holds_extended kind value b h =
      let (k, t) = split_and (blocks kind value b) (still_blocks later b) h in
      join_and _ _ k (later_keeps b.expires_at later until t)

  pub block-keeps :
      (kind other : BlockKind) (value key : ℕ) (rows : List BlockRow)
      → BlocksAt later other key rows
      → BlocksAt later other key (block kind value reason lead_id until rows)
  unfolding block
  block-keeps kind other value key rows h = by_test (any (same_key kind value) rows)
    where
      by_test :
          (b : Bool)
          → BlocksAt later other key (
              if b
              then update (same_key kind value) (extended reason lead_id until) rows
              else record {
                kind = kind;
                value = value;
                reason = reason;
                lead_id = some lead_id;
                expires_at = some until;
              }
                ∷ rows)
      by_test true = any-update _ _ _ rows (holds_extended other key) h
      by_test false = or_right _ _ h

  pub block-BlocksAt :
      (kind : BlockKind) (value : ℕ) (rows : List BlockRow)
      → later < until
      → BlocksAt later kind value (block kind value reason lead_id until rows)
  unfolding block
  block-BlocksAt kind value rows h = by_test (any (same_key kind value) rows) refl
    where
      by_test :
          (b : Bool)
          → any (same_key kind value) rows ≡ b
          → BlocksAt later kind value (
              if b
              then update (same_key kind value) (extended reason lead_id until) rows
              else record {
                kind = kind;
                value = value;
                reason = reason;
                lead_id = some lead_id;
                expires_at = some until;
              }
                ∷ rows)
      by_test true e =
          any_updated _ _ _ rows
            (λ b k. join_and (blocks kind value b) _ k (later_lasts b.expires_at later until h)) e
      by_test false e = rw (same_kind_self kind, ==_self value, before_end later until h) refl
