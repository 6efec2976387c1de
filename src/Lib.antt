-- ===== src/Lib.antt =====
-- Models of the samples of linuxAppSamp, C programs for Linux boards with GPIO pins, threads,
-- processes, semaphores, message queues, pipes, signals and sockets, and theorems about them.
--
-- Most programs stand alone. Three groups work together: app_05tcp_trans1MB_server.c and
-- app_05tcp_trans1MB_client.c share app_05common.h and speak over a socket; so do the app_04
-- servers and clients; the gpio_*.c programs and app_01timerOut.c each have their copy of the same
-- GPIO functions.
--
-- The files:
-- - Base: the natural numbers, integers, lists, arrays of bytes, C strings and printed numbers
--   that the models share.
-- - Machine: state machines as functions of moves, what they can reach, and the rule that work
--   which gets less leads to an end. No code of the repository.
-- - Os: open, read, write, close, printf and the waiting calls as a log of events; the answers of
--   the system are a record of functions of that log. Os.Sample has two systems for the tests.
-- - Gpio: gpio_export, gpio_set_direction, gpio_set_edge, gpio_set_value, gpio_get_value
--   (gpio_input_epoll.c and its copies) and gpio_get_hiLow (app_01timerOut.c). Each model has the
--   name of its function in the spelling of this library.
-- - Panel: app_01timerOut.c. ledTask, swTask and mainTask are steps on a state that holds the flag
--   s_bfStart, the log and the place of each thread; a schedule is a list of threads. A call of a
--   GPIO function is one step. Debounce has the loop of swTask, DateTime has getDateTimeStr and
--   Fields the numbers that it prints. Plain is gpio_ledTask_swTask.c, whose two threads are the
--   same code.
-- - Times: time_get.c, time_msecGet.c, time_set.c and app_02dispTime_reboot.c, with the text of
--   the time as in Panel.
-- - Transfer: app_05common.h, the server and the client. Wire has sendOnePacket, Sender
--   sendDataBlock, Receiver rcvDataBlock and the loop of the client, Request sendReqOK and the
--   loop of the server, Client the main of the client, which shows the reply before it receives
--   the data. The results of recv are given as a list.
-- - Wait: gpio_input_poll.c, gpio_input_epoll.c, gpio_input_select.c and gpio_input_usleep.c: the
--   set-up in Start, the loops and mains in Programs, the count of the lines `pushed` in Quiet.
-- - Elapsed: time_nanosecond.c and app_03timeOfCalc.c. The readings of the clock are parameters.
-- - Counter: semaphore_named.c, semaphore_named_blocked.c and mutex_variable.c. Threads has the
--   steps on a semaphore or mutex and a record for the code of a thread, with laws; Named, Blocked
--   and Mutex are the three codes. The threads of a program are a list and a schedule is a list of
--   their numbers. An increment is a load and a store. All threads are taken as created at the
--   start: one that is created later is one that is scheduled later.
-- - Signal: mutex_signal.c. main and threadproc are the two parts of a state machine, whose moves
--   are their steps and a wake-up without a signal. The test of the condition and the call of
--   pthread_cond_wait after it are two steps. The lines that they print are left out.
-- - Sched: posix_thread_4fifo.c in HandOff, with the two mutexes and the condition, and
--   posix_thread_6highLowPri.c in Busy. pthread_create and the call of pthread_cond_wait after it
--   are two steps; a lock that is released at once is one. The clock is a numbered list of
--   readings.
-- - Argument: posix_thread_5passingOneArgument.c, with the blocks that the threads get and
--   release. The top of the heap is a field that no code of the program reads.
-- - Queue: mqueue_1send_rcv.c, mqueue_2setMsgSize.c and mqueue_3send_rcv_20msgs.c. All messages
--   have one priority, so that the queue is a list. The lines that the programs show of the
--   messages are in Shown. A call that blocks for ever and a read over the end of a buffer are
--   outcomes.
-- - Sysv: msg_1thread_send_rcv.c in Threads, send_func and recv_func as a state machine over the
--   queue, and msg_0send_rcv.c in Alone.
-- - Segment: ipc-sharedMemory.c: main, proc_one and proc_two as a state machine; strcpy into the
--   segment is one step for each byte.
-- - Pipe: ipc-pipe.c in Stream and bash_output.c in Command. What has gone through a pipe is a
--   list of bytes.
-- - Fork: proc_fork.c; a step of a child is a round of its loop.
-- - Catch: ipc-signal.c. A signal is pending until it arrives, in a step of its own between the
--   steps of the child; a handler runs as one step. Each handler writes the zero of its array with
--   the text.
-- - Echo: app_04tcp_server.c, app_04tcp_client.c, app_04udp_server.c and app_04udp_client.c. The
--   results of recv, recvfrom and sendto are given as lists.
-- - Socket: the socket_*.c programs: the clients and servers in Loops, the pair without blocking
--   in Nonblocking.
-- - Net: the listing programs network_02listInterfaceNames.c and network_03getIpAddr.c in Listing,
--   network_03setIpAddr.c, network_04changeNetmask.c and network_05ifdown.c in Settings.
-- - Card: sd_append.c and sd_mount_umount.c, with the file on the card and the file in the
--   directory under it.
--
-- Fuel and bounds: the loops of Wait run for ever in C unless the switch is pushed, and take the
-- number of their rounds as an argument. The loop of sendDataBlock has 125 rounds of fuel:
-- SIZE_LARGE_DATA is 125 times SIZE_ONE_PACKET, and a round that sends takes one packet off. The
-- fuel of funcRead is one more than the bytes that come, since a round takes a byte or is the
-- last; so is that of the loop of bash_output.c. The busy wait of Sched has as much fuel as the
-- clock takes readings to come to the second that it waits for, which is a hypothesis on the
-- clock. All other loops go over a list or have a fixed number of rounds. Bytes are numbers; the
-- bytes of the end mark are kept below 256 as in the source. Counters that stay far below the
-- limit of an int are natural numbers.
--
-- Hypotheses: the session theorems take a network that delivers each message whole. What happens
-- otherwise is in Transfer.Faults. Arrays that C does not initialise are parameters with arbitrary
-- contents. An access outside of an array ends a model with a result of its own.
--
-- State machines: pauses (sleep and usleep) order nothing, so that a theorem holds for every order
-- of the steps, and where an order matters it is shown in the tests. fork is taken to succeed in
-- Segment and Catch; in Fork it may fail.
--
-- Not modelled: the programs that are a few system calls whose effect the system decides
-- (network_01listInterfaceNames.c, ipc-signal_raise.c, exec_1execlp.c, os_reboot.c, os_powerOff.c,
-- sio_input.c, mqueue_0open_close.c and the first three of the posix_thread programs); the
-- preference of the scheduler for a priority; the measured times and the lines of
-- posix_thread_4fifo.c; the set-up of sockets; the floating-point sums of app_03timeOfCalc.c,
-- whose results nothing uses.
pub mod Base
pub mod Machine
pub mod Os
pub mod Gpio
pub mod Panel
pub mod Times
pub mod Transfer
pub mod Wait
pub mod Elapsed
pub mod Counter
pub mod Signal
pub mod Sched
pub mod Argument
pub mod Queue
pub mod Sysv
pub mod Segment
pub mod Pipe
pub mod Fork
pub mod Catch
pub mod Echo
pub mod Socket
pub mod Net
pub mod Card
