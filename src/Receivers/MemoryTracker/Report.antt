-- ===== src/Receivers/MemoryTracker/Report.antt =====
-- python/src/embedded_bridge/receivers/memory_tracker.py: the text of MemoryTracker.report.
mod Tests
use embedded_bridge.Prelude.{
  ℕ, zero, suc, ◌+◌, ◌/◌, ◌%◌, ◌≡◌, refl, Bool, true, false, List, [], ◌∷◌, ◌++◌, map, ltb,
  if◌then◌else◌, arith, ap,
}
use embedded_bridge.Prelude.Int.{ℤ, pos, negsuc, ltb_ℤ}
use embedded_bridge.Text.Utf8.{Text}
use embedded_bridge.Text.Literal.{codes}
use embedded_bridge.Receivers.MemoryTracker.{MemoryInfo, MemoryTracker, init, leaks, below}

-- `sorted(..., key=lambda x: x[1].delta)`, which keeps the order of equal deltas.
pub insert_sorted : Text × MemoryInfo → List (Text × MemoryInfo) → List (Text × MemoryInfo)
insert_sorted (name, info) [] = (name, info) ∷ []
insert_sorted (name, info) ((name', info') ∷ items) =
    let rest = insert_sorted (name, info) items in
    if ltb_ℤ info'.delta info.delta
    then (name', info') ∷ rest
    else (name, info) ∷ (name', info') ∷ items

pub sorted : List (Text × MemoryInfo) → List (Text × MemoryInfo)
sorted [] = []
sorted (item ∷ items) = insert_sorted item (sorted items)

-- The decimal digits of a number; fuel above the number is enough.
pub digits : ℕ → ℕ → Text
digits zero n = []
digits (suc fuel) n =
    let front = digits fuel (n / 10) in
    if ltb n 10 then (48 + n) ∷ [] else front ++ ((48 + n % 10) ∷ [])

pub shown : ℤ → Text
shown (pos n) = digits (suc n) n
shown (negsuc n) = codes "-" ++ digits (suc (suc n)) (suc n)

-- The format `:+d`.
pub shown_signed : ℤ → Text
shown_signed (pos n) = codes "+" ++ shown (pos n)
shown_signed (negsuc n) = shown (negsuc n)

pub report_line : Text × MemoryInfo → Text
report_line (name, info) =
    codes "  "
    ++ name
    ++ codes ": "
    ++ shown_signed info.delta
    ++ codes " bytes (free: "
    ++ shown info.free_before
    ++ codes " -> "
    ++ shown info.free_after
    ++ codes ")"

-- `"\n".join(...)` of a first line and others.
pub join_lines : Text → List Text → Text
join_lines line [] = line
join_lines line (line' ∷ lines) = line ++ (10 ∷ join_lines line' lines)

pub report_of : List (Text × MemoryInfo) → Text
report_of [] = []
report_of (item ∷ items) = join_lines (codes "Memory Report:") (map report_line (item ∷ items))

pub report : MemoryTracker → Text
report s = report_of (sorted (leaks s))
