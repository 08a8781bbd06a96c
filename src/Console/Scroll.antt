-- ===== src/Console/Scroll.antt =====
-- What the screen holds after the two loops of console_scroll and console_clear.
use balloon.Base.{ℕ, zero, suc, ◌+◌, ◌≤◌, ◌≡◌, ◌&&◌, arith, ltb, leb, ◌==◌, if◌then◌else◌}
use balloon.Console.{
  Console, blank, move_up, fill_blank, console_scroll, console_move_cursor, console_clear, outb,
}

move_up_lem :
    (video : ℕ → ℕ) (i n j : ℕ)
    → move_up video i n j ≡ (if leb i j && ltb j (i + n) then video (j + 80) else video j)
unfolding move_up
move_up_lem video i zero j = ground arith
move_up_lem video i (suc n) j =
    ground (arith, move_up_lem (λ x. if x == i then video (i + 80) else video x) (i + 1) n j)

fill_blank_lem :
    (video : ℕ → ℕ) (i n j : ℕ)
    → fill_blank video i n j ≡ (if leb i j && ltb j (i + n) then blank else video j)
unfolding fill_blank
fill_blank_lem video i zero j = ground arith
fill_blank_lem video i (suc n) j =
    ground (arith, fill_blank_lem (λ x. if x == i then blank else video x) (i + 1) n j)

-- Past the last row the screen moves up by a row: every row holds the next one, the last row is
-- blank, the memory behind the screen stays, and the cursor's row is the last one.
pub console_scroll_lem :
    (c : Console) (j : ℕ)
    → 25 ≤ c.y_pos
    → ((console_scroll c).video j
        ≡ (if ltb j 1920 then c.video (j + 80) else (if ltb j 2000 then blank else c.video j)))
      × ((console_scroll c).y_pos ≡ 24)
unfolding console_scroll
console_scroll_lem c j h =
    ground (arith, fill_blank_lem (move_up c.video 0 1920) 1920 80 j, move_up_lem c.video 0 1920 j)

-- console_clear blanks the 2000 cells of the screen and no other, and moves the cursor home.
pub console_clear_lem :
    (c : Console) (j : ℕ)
    → ((console_clear c).video j ≡ (if ltb j 2000 then blank else c.video j))
      × ((console_clear c).x_pos ≡ 0)
      × ((console_clear c).y_pos ≡ 0)
unfolding console_clear console_move_cursor outb
console_clear_lem c j = ground (arith, fill_blank_lem c.video 0 2000 j)
