-- ===== src/Cui.antt =====
-- The state of the terminal interface that is not drawn: the keys and the width of the device column
-- (src/cui.cpp). The lines to show are given by their device names.
pub mod Modes
pub mod Line
pub mod Cutting
pub mod Captions
pub mod Drawing
pub mod Columns
pub mod Screen
pub mod Order
pub mod Fitting
pub mod Widths
use nethogs.Base.{
  ℕ, zero, suc, ◌+◌, ◌%◌, ◌<◌, Bool, true, false, not, Option, none, some, List, [], ◌∷◌, ltb, ◌==◌,
  if◌then◌else◌, length, ℤ, pos, negsuc, ◌+ℤ◌, rem_int,
}

-- The globals sortRecv, showcommandline and viewMode.
pub record Ui : Type 0 where
  pub sort_recv : Bool
  pub showcommandline : Bool
  pub view_mode : ℤ

-- VIEWMODE_COUNT
abbrev pub viewmode_count : ℕ
viewmode_count = 4

-- ui_tick, at what getch gives (`none` is ERR, which matches no case); `none` comes of the key that
-- quits.
unfoldable pub ui_tick : Option ℕ → Ui → Option Ui
ui_tick none ui = some ui
ui_tick (some key) ui =
    if key == b'q'
    then none
    else (if key == b's'
        then some (record ui { sort_recv = false })
        else (if key == b'r'
            then some (record ui { sort_recv = true })
            else (if key == b'l'
                then some (record ui { showcommandline = not ui.showcommandline })
                else (if key == b'm'
                    then some
                        (record ui { view_mode = rem_int (ui.view_mode +ℤ pos 1) viewmode_count })
                    else some ui))))

-- VIEWMODE_KBPS; the totals are shown in kilobytes, bytes and megabytes in the modes 1, 2 and 3. The
-- mode is an `int`, which -v can make negative.
abbrev pub viewmode_kbps : ℕ
viewmode_kbps = 0

abbrev pub is_mode : ℕ → ℤ → Bool
is_mode mode (pos n) = n == mode
is_mode mode (negsuc n) = false

abbrev pub is_total : ℤ → Bool
is_total mode = if is_mode 1 mode then true else (if is_mode 2 mode then true else is_mode 3 mode)

-- MIN_COLUMN_WIDTH_DEV and MAX_COLUMN_WIDTH_DEV
abbrev pub min_column_width_dev : ℕ
min_column_width_dev = 5

abbrev pub max_column_width_dev : ℕ
max_column_width_dev = 15

-- The loop of get_devlen over the lines from `i` on, with its variables devlen and curlen.
unfoldable pub devlen_loop : ℕ → List (List ℕ) → ℕ → ℕ → ℕ → ℕ × ℕ
devlen_loop i [] rows devlen curlen = (devlen, curlen)
devlen_loop i (devicename ∷ lines) rows devlen curlen =
    if ltb (i + 3) rows
    then devlen_loop (suc i) lines rows devlen
        (if ltb devlen (length devicename) then devlen else length devicename)
    else devlen_loop (suc i) lines rows devlen curlen

unfoldable pub get_devlen : List (List ℕ) → ℕ → ℕ
unfolding devlen_loop
get_devlen lines rows =
    let devlen = (devlen_loop 0 lines rows min_column_width_dev 0).0 in
    if ltb max_column_width_dev devlen then max_column_width_dev else devlen
