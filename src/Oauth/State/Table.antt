-- ===== src/Oauth/State/Table.antt =====
-- src/mcpgtw/oauth/state_store.py: what each statement on the table does to the row of a key.
use mcp_gtw.Base.{
  ℕ, String, Bool, Option, none, some, List, [], ◌∷◌, ◌++◌, ◌≡◌, refl, arith, text_eq, ◌==◌, ==_iff,
  ◌&&◌, is_some, ltb, suc, length, keep_if, if◌then◌else◌,
}
use mcp_gtw.Oauth.State.{Row, Payload, matches, find, delete, delete_expired, upsert, update}

abbrev pub unexpired : ℕ → Option Row → Option Row
unexpired now none = none
unexpired now (some row) = if ltb now row.expires then some row else none

abbrev pub repaid : Payload → Option Row → Option Row
repaid payload none = none
repaid payload (some row) = some (record row { payload = payload })

abbrev pub or_else : Option Row → Option Row → Option Row
or_else none other = other
or_else (some row) other = some row

-- PRIMARY KEY(kind,key)
abbrev pub IsKeyed : List Row → Type 0
IsKeyed [] = Unit
IsKeyed (row ∷ rows) = (find row.kind row.key rows ≡ none) × IsKeyed rows

pub find-delete :
    (kind key : String) (rows : List Row) (k j : String)
    → find k j (delete kind key rows) ≡ (if kind == k && key == j then none else find k j rows)
unfolding find delete
find-delete kind key [] k j = ground arith
find-delete kind key (row ∷ rows) k j = ground (
  arith,
  find-delete kind key rows k j,
  ==_iff row.kind k,
  ==_iff row.key j,
  ==_iff kind k,
  ==_iff key j,
  ==_iff row.kind kind,
  ==_iff row.key key,
)

pub find-delete_expired :
    (now : ℕ) (rows : List Row) (k j : String)
    → IsKeyed rows
    → find k j (delete_expired now rows) ≡ unexpired now (find k j rows)
unfolding find delete_expired
find-delete_expired now [] k j h = refl
find-delete_expired now (row ∷ rows) k j h =
    ground (arith, find-delete_expired now rows k j h.1, ==_iff row.kind k, ==_iff row.key j)

-- what is not there is not there after a deletion
pub find-keep_if-none :
    (p : Row → Bool) (kind key : String) (rows : List Row)
    → find kind key rows ≡ none
    → find kind key (keep_if p rows) ≡ none
unfolding find
find-keep_if-none p kind key [] h = refl
find-keep_if-none p kind key (row ∷ rows) h = ground (arith, find-keep_if-none p kind key rows)

pub find-upsert :
    (new : Row) (rows : List Row) (k j : String)
    → find k j (upsert new rows) ≡ (if matches k j new then some new else find k j rows)
unfolding find upsert
find-upsert new [] k j = refl
find-upsert new (row ∷ rows) k j = ground (
  arith,
  find-upsert new rows k j,
  ==_iff row.kind k,
  ==_iff row.key j,
  ==_iff new.kind k,
  ==_iff new.key j,
  ==_iff row.kind new.kind,
  ==_iff row.key new.key,
)

pub find-update :
    (kind key : String) (payload : Payload) (rows : List Row) (k j : String)
    → find k j (update kind key payload rows)
      ≡ (if kind == k && key == j then repaid payload (find k j rows) else find k j rows)
unfolding find update
find-update kind key payload [] k j = ground arith
find-update kind key payload (row ∷ rows) k j = ground (
  arith,
  find-update kind key payload rows k j,
  ==_iff row.kind k,
  ==_iff row.key j,
  ==_iff kind k,
  ==_iff key j,
  ==_iff row.kind kind,
  ==_iff row.key key,
)

pub find-append :
    (rows : List Row) (new : Row) (k j : String)
    → find k j (rows ++ new ∷ [])
      ≡ or_else (find k j rows) (if matches k j new then some new else none)
unfolding find
find-append [] new k j = refl
find-append (row ∷ rows) new k j = ground (arith, find-append rows new k j)

module _ (p : Row → Bool) where
  find-keep_if :
      (rows : List Row) (k j : String) → find k j rows ≡ none → find k j (keep_if p rows) ≡ none
  unfolding find
  find-keep_if [] k j h = refl
  find-keep_if (row ∷ rows) k j h = ground (arith, find-keep_if rows k j)

  pub keep_if-IsKeyed : (rows : List Row) → IsKeyed rows → IsKeyed (keep_if p rows)
  keep_if-IsKeyed [] h = tt
  keep_if-IsKeyed (row ∷ rows) h =
      ground (arith, keep_if-IsKeyed rows h.1, find-keep_if rows row.kind row.key)

pub upsert-IsKeyed : (new : Row) (rows : List Row) → IsKeyed rows → IsKeyed (upsert new rows)
unfolding upsert find
upsert-IsKeyed new [] h = (refl, tt)
upsert-IsKeyed new (row ∷ rows) h = ground (
  arith,
  upsert-IsKeyed new rows h.1,
  find-upsert new rows row.kind row.key,
  ==_iff row.kind new.kind,
  ==_iff row.key new.key,
  ==_iff new.kind row.kind,
  ==_iff new.key row.key,
)

pub update-IsKeyed :
    (kind key : String) (payload : Payload) (rows : List Row)
    → IsKeyed rows
    → IsKeyed (update kind key payload rows)
unfolding update find
update-IsKeyed kind key payload [] h = tt
update-IsKeyed kind key payload (row ∷ rows) h = ground (
  arith,
  update-IsKeyed kind key payload rows h.1,
  find-update kind key payload rows row.kind row.key,
)

pub append-IsKeyed :
    (rows : List Row) (new : Row)
    → IsKeyed rows
    → find new.kind new.key rows ≡ none
    → IsKeyed (rows ++ new ∷ [])
unfolding find
append-IsKeyed [] new h k = (refl, tt)
append-IsKeyed (row ∷ rows) new h k = ground (
  arith,
  append-IsKeyed rows new h.1,
  find-append rows new row.kind row.key,
  ==_iff row.kind new.kind,
  ==_iff row.key new.key,
  ==_iff new.kind row.kind,
  ==_iff new.key row.key,
)

pub length-update :
    (kind key : String) (payload : Payload) (rows : List Row)
    → length (update kind key payload rows) ≡ length rows
unfolding update
length-update kind key payload [] = refl
length-update kind key payload (row ∷ rows) = ground (arith, length-update kind key payload rows)

pub length-upsert :
    (new : Row) (rows : List Row)
    → length (upsert new rows)
      ≡ (if is_some (find new.kind new.key rows) then length rows else suc (length rows))
unfolding upsert find
length-upsert new [] = refl
length-upsert new (row ∷ rows) = ground (arith, length-upsert new rows)
