-- ===== src/Week04/Session/Greets.antt =====
-- A client of week04/client.c and the server of week04/server.c together.
use networks_course.Prelude.{◌≡◌, List, [], ◌∷◌, length}
use networks_course.Week04.Message.{TestStruct, Student, field_size}
use networks_course.Week04.Message.Laws.{IsStudent}

abbrev pub IsBuffer : TestStruct → Type 0
IsBuffer s = (length s.name ≡ field_size) × (length s.group ≡ field_size)

abbrev pub AllStudents : List Student → Type 0
AllStudents [] = Unit {0}
AllStudents (student ∷ students) = IsStudent student × AllStudents students
