-- ===== src/TaskManager/Clone/Spaces.antt =====
-- source/TaskManager.cpp, `clone`: the parent's user space and the child's.
use flix.Paging.Directory.{Directory}
