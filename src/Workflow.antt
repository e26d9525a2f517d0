-- ===== src/Workflow.antt =====
-- internal/workflow: the commands of the program, composed from the other parts. What a workflow is given
-- as dependencies is a parameter of its model, and so is the world that they change; messages on the
-- terminal are left out.
pub mod Pull
pub mod Open
pub mod Session
pub mod Capture
