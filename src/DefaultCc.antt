-- ===== src/DefaultCc.antt =====
-- congctrls.hh, lines 3-91: DefaultCC, a controller in the manner of TCP Reno. An int is an integer whose
-- overflow is not modelled.
pub mod Recovery
mod Runs
use copa_new.Prelude.{ℕ, zero, suc, ◌+◌, Bool, true, false, if◌then◌else◌, ◌==◌, ltb, leb}
use copa_new.Prelude.Int.{ℤ, pos, ◌+ℤ◌, eqb_ℤ, ltb_ℤ}
use copa_new.Double.{Double, ◌⊕◌, ◌⊘◌, ◌≤?◌, lit}

-- With the three fields of `CCC` last.
pub record DefaultCc (W : Type 0) : Type 0 where
  pub issthresh : ℤ
  pub slow_start : Bool
  pub dup_ack_count : ℕ
  pub last_ack : ℤ
  pub intersend_time : W
  pub the_window : W
  pub timeout : W

module _ {W : Type 0} ⦃d : Double W⦄ where
  abbrev pub new_default : DefaultCc W
  new_default = record {
    issthresh = pos 83333;
    slow_start = true;
    dup_ack_count = 0;
    last_ack = pos 0;
    intersend_time = lit 0 1;
    the_window = lit 2 1;
    timeout = lit 1000 1;
  }

  -- `m_issthresh = true` and `m_bSlowStart = 83333`, as it is written.
  unfoldable pub init_default : DefaultCc W → DefaultCc W
  init_default c = record c {
    issthresh = pos 1;
    slow_start = true;
    intersend_time = lit 0 1;
    the_window = lit 2 1;
    timeout = lit 1000000 1 ⊘ lit 1000 1;
  }

  -- A threshold of half the window, and not below 2.
  unfoldable pub half_window : DefaultCc W → ℤ
  half_window c =
      let half : ℤ = d.trunc (c.the_window ⊘ lit 2 1) in if ltb_ℤ half (pos 2) then pos 2 else half

  unfoldable pub ack_action : DefaultCc W → DefaultCc W
  ack_action c =
      if c.slow_start
      then record c {
        the_window = c.the_window ⊕ lit 1 1;
        slow_start = if d.of_int c.issthresh ≤? c.the_window ⊕ lit 1 1 then false else c.slow_start;
      }
      else record c { the_window = c.the_window ⊕ lit 1 1 ⊘ c.the_window }

  unfoldable pub dup_ack_action : DefaultCc W → DefaultCc W
  dup_ack_action c = record c {
    slow_start = false;
    issthresh = half_window c;
    the_window = d.of_int (half_window c +ℤ pos 3);
  }

  unfoldable pub same_ack : DefaultCc W → DefaultCc W
  same_ack c =
      let e : DefaultCc W = record c { dup_ack_count = c.dup_ack_count + 1 } in
      if e.dup_ack_count == 3
      then dup_ack_action e
      else if ltb 3 e.dup_ack_count
      then record e { the_window = e.the_window ⊕ lit 1 1 }
      else ack_action e

  unfoldable pub recovered : DefaultCc W → DefaultCc W
  recovered c = if leb 3 c.dup_ack_count then record c { the_window = d.of_int c.issthresh } else c

  unfoldable pub new_ack : DefaultCc W → ℤ → DefaultCc W
  new_ack c ack = ack_action (record (recovered c) { last_ack = ack; dup_ack_count = 1 })

  unfoldable pub on_ack_default : DefaultCc W → ℤ → DefaultCc W
  on_ack_default c ack = if eqb_ℤ ack c.last_ack then same_ack c else new_ack c ack

  unfoldable pub on_timeout_default : DefaultCc W → DefaultCc W
  on_timeout_default c = record c {
    issthresh = half_window c;
    slow_start = true;
    the_window = lit 2 1;
  }
