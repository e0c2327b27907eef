-- ===== src/TaskManager/Clone/Tests.antt =====
-- source/TaskManager.cpp, `clone`: the code run on a process with one page.
use flix.Base.{◌==◌, if◌then◌else◌}
use flix.TaskManager.Clone.{Contents}

-- Frame 1 holds the number of each byte.
abbrev bytes : Contents
bytes = λ frame offset. if frame == 1 then offset else 0
