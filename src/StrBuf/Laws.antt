-- ===== src/StrBuf/Laws.antt =====
-- The buffer never overflows: after each operation there is room for the text and its NUL.
use fca4j_project.Base.{
  ℕ, zero, suc, ◌+◌, ◌*◌, ◌≤◌, ◌<◌, ◌≡◌, refl, List, ◌++◌, length, leb, arith, length-append,
  Bool-cases, inl, inr,
}
use fca4j_project.StrBuf.{StrBuf, len, grow_cap, sb_ensure, sb_append}

-- Room for the text and the NUL.
abbrev pub HasRoom : StrBuf → Type 0
HasRoom sb = len sb + 1 ≤ sb.cap

-- The loop ends with room to spare, since the capacity is not 0 and grows in every round.
grow_cap_lem :
    (fuel needed cap : ℕ)
    → 0 < cap
    → needed + 1 ≤ fuel + cap
    → (needed < grow_cap fuel needed cap) × (cap ≤ grow_cap fuel needed cap)
unfolding grow_cap
grow_cap_lem zero needed cap pos h = (omega arith, omega arith)
grow_cap_lem (suc fuel) needed cap pos h = elim (Bool-cases (leb cap needed)) [
  | inl short ↦
      rw (short, grow_cap)
        (
          (grow_cap_lem fuel needed (cap * 2) (omega arith) (omega arith)).0,
          omega (arith, (grow_cap_lem fuel needed (cap * 2) (omega arith) (omega arith)).1),
        )
  | inr enough ↦ rw (enough, grow_cap) (ground arith, omega arith)
]

pub ensure-room :
    (sb : StrBuf) (extra : ℕ)
    → HasRoom sb
    → (len sb + extra + 1 < (sb_ensure sb extra).cap) × ((sb_ensure sb extra).text ≡ sb.text)
unfolding sb_ensure
ensure-room sb extra room = (
  (grow_cap_lem (len sb + extra + 2) (len sb + extra + 1) sb.cap (omega arith) (omega arith)).0,
  refl,
)

-- `sb_append` on a buffer with room writes within the capacity, appends exactly the text, and
-- leaves room.
pub append_lem :
    (sb : StrBuf) (s : List ℕ)
    → HasRoom sb
    → ((sb_append sb s).text ≡ sb.text ++ s) × HasRoom (sb_append sb s)
unfolding sb_append
append_lem sb s room =
    let (big, same) = ensure-room sb (length s) room in
    (rw same, rw same (omega (arith, big, length-append sb.text s)))
