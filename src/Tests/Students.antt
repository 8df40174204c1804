-- ===== src/Tests/Students.antt =====
-- week04 and week05: two students.
use networks_course.Prelude.{
  ℕ, ◌≡◌, Bytes, List, [], ◌∷◌, map, ok, replicate, codes, c_str, arith, length-replicate,
}
use networks_course.Week04.Message.{TestStruct, Student}
use networks_course.Week04.Message.Laws.{IsStudent, greeting_of}
use networks_course.Week04.Session.{client_rounds}
use networks_course.Week04.Session.Greets.{IsBuffer, AllStudents}
use networks_course.Week05.Worker.{WorkerContext, worker}
use networks_course.Week05.Worker.Greets.{answered, client_rounds-worker}

abbrev ann : Student
ann = record { name = codes "Ann"; age = 20; group = codes "B17" }

abbrev bo : Student
bo = record { name = codes "Bo"; age = 21; group = codes "B16-4" }

abbrev students : List Student
students = ann ∷ bo ∷ []

abbrev cleared : TestStruct
cleared = record { name = replicate 1024 0; age = 0; group = replicate 1024 0 }

cleared-IsBuffer : IsBuffer cleared
cleared-IsBuffer = (length-replicate {A = ℕ} 1024 0, length-replicate {A = ℕ} 1024 0)

ann-IsStudent : IsStudent ann
ann-IsStudent = record {
  named = omega arith;
  name_fits = omega arith;
  name_text = omega arith;
  age_fits = omega arith;
  group_fits = omega arith;
  group_text = omega arith;
}

bo-IsStudent : IsStudent bo
bo-IsStudent = record {
  named = omega arith;
  name_fits = omega arith;
  name_text = omega arith;
  age_fits = omega arith;
  group_fits = omega arith;
  group_text = omega arith;
}

all-students : AllStudents students
all-students = (ann-IsStudent, (bo-IsStudent, tt))

abbrev sevens : Bytes
sevens = replicate 4096 7

-- Buffers in which something was left.
abbrev used : WorkerContext
used = record { data_buffer = replicate 10240 7; message = sevens }

client_rounds-worker_example :
    (datagrams sent : List Bytes) × (client_rounds cleared students ≡ ok datagrams)
    × (worker used (map answered datagrams) ≡ ok sent)
    × (map c_str sent ≡ map greeting_of students)
client_rounds-worker_example =
    client_rounds-worker students cleared used cleared-IsBuffer all-students
      (length-replicate {A = ℕ} 10240 7, length-replicate {A = ℕ} 4096 7)
