-- ===== src/Pipe.antt =====
-- The calls that src/json_metrics.c makes.
use monitor_program.Base.{Bool, Option, List, map, Bytes}
use monitor_program.Libc.Stdio.{FileCall}

-- The calls of the readers, and those that handle the object, its text and the pipe.
pub data JsonCall : Type 0 where
  reading : FileCall → JsonCall  -- a call of stdio in a function of src/metrics.c
  create_object : JsonCall
  print_object : Option Bytes → JsonCall  -- cJSON_Print, with its result
  open_pipe : Bool → JsonCall  -- fopen, and whether it opens
  write_line : Bytes → JsonCall  -- fprintf(pipe, "%s\n", json_data)
  flush_pipe : JsonCall
  close_pipe : JsonCall
  pipe_error : JsonCall  -- perror
  free_text : JsonCall
  delete_object : JsonCall

abbrev pub readings : List FileCall → List JsonCall
readings cs = map reading cs
