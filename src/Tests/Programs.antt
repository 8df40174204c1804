-- ===== src/Tests/Programs.antt =====
-- A stack of week01, and the command line and the log level of week06d and week06.
use networks_course.Prelude.{
  ℕ, ◌+◌, ◌-◌, ◌*◌, ◌%◌, ◌^◌, refl, Bytes, ℤ, pos, magnitude, false, List, [], ◌∷◌, none, replicate,
  codes, arith,
}
use networks_course.Week01.Stack.{CustomStack}
use networks_course.Week01.Stack.Refine.{Stands}
use networks_course.Week06d.Main.{Arguments}
use networks_course.Week06d.Main.Options.{Setting, listen, name}

abbrev pub fresh : CustomStack
fresh = record { arr = replicate 1024 (pos 9); next_element = 0 }

pub fresh-Stands : Stands fresh []
fresh-Stands = record { allocated = refl; room = omega arith; elements = refl }

abbrev pub unset : Arguments
unset = record {
  node_name = [];
  listen_port = 0;
  ping_interval = pos 3;
  bootstrap_addr = none;
  log_level = codes "info";
  got_listen_ip = false;
  got_name = false;
}

-- `atoi` of a text of digits.
abbrev number_of : Bytes → ℕ → ℤ
number_of [] n = pos n
number_of (d ∷ ds) n = number_of ds (n * 10 + (d - 48))

abbrev pub atoi : Bytes → ℤ
atoi text = number_of text 0

abbrev pub to_port : ℤ → ℕ
to_port n = magnitude n % 2 ^ 16

-- The name is given twice.
abbrev settings : List Setting
settings = name (codes "ann") ∷ listen (codes "8080") ∷ name (codes "bob") ∷ []
